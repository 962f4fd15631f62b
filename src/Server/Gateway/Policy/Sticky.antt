-- ===== src/Server/Gateway/Policy/Sticky.antt =====
-- Which requests the policies send the same way, and where to.
use mathlib.Core.List.Perm
use mathlib.Core.List.{Mem, Memᴰ, append_assoc}
use mathlib.Core.Logic.{∥∥₁_map}
use native.Mathlib.Nat.{mod-lt}
use kvmux.Prelude.{
  ℕ, zero, suc, ◌+◌, ◌%◌, ◌≤◌, ◌<◌, ◌≡◌, refl, sym, ap, ◌∙◌, inl, inr, none, List, [], ◌∷◌, ◌++◌,
  map, arith, Bool-cases, Option-cases, length, take, All, Bytes,
}
use kvmux.Prelude.Int.{pos}
use kvmux.Prelude.Double.{Double}
use kvmux.Config.{RoutingPolicy, RoutingConfig, prefix_affinity, round_robin}
use kvmux.OpenAi.Json.{Json}
use kvmux.OpenAi.Request.{ChatMessage, ChatCompletionRequest}
use kvmux.Routing.{Candidate, RouteRequest}
use mathlib.Core.Path.{ap₂}
use mathlib.Core.List.{map-append}
use kvmux.Routing.Canonical.{
  take-over, canonical, flat, canonical_affinity_string, canonical_affinity_string_lem,
}
use kvmux.Routing.RoundRobin.{RoundRobin, u64_mod, index_at, collect}
use kvmux.Routing.RoundRobin
use kvmux.Routing.RoundRobin.Fair.{indices}
use kvmux.Routing.Affinity.Guard.{order-perm}
use kvmux.Routing.Keys.{content_to_string, affinity_key_for_request}
use kvmux.Server.Gateway.Policy.{turn, content_text, turns, affinity_key, order_candidates}

flat-append : (xs ys : List (Bytes × Bytes)) → flat (xs ++ ys) ≡ flat xs ++ flat ys
flat-append [] ys = refl
flat-append ((role, content) ∷ xs) ys =
    ap (λ r. role ++ (b':' ∷ (content ++ r))) (flat-append xs ys)
    ∙ rw
        (
          append_assoc role (b':' ∷ (content ++ flat xs)) (flat ys),
          append_assoc content (flat xs) (flat ys),
        )
        refl

index_at-Mem : (cs : List Candidate) (i : ℕ) → i < length cs → Memᴰ (index_at cs i) (indices cs)
index_at-Mem [] i h = elim h [ ]
index_at-Mem (c ∷ cs) zero h = Memᴰ.head refl
index_at-Mem (c ∷ cs) (suc i) h = Memᴰ.tail (index_at-Mem cs i (omega arith))

collect-Mem :
    (f : ℕ → ℕ) (is : List ℕ) (i k : ℕ)
    → ((j : ℕ) → Memᴰ (f j) is)
    → (x : ℕ) → Memᴰ x (collect f i k)
    → Memᴰ x is
unfolding collect
collect-Mem f is i zero h x m = elim m [ ]
collect-Mem f is i (suc k) h x (Memᴰ.head e) = rw e (h i)
collect-Mem f is i (suc k) h x (Memᴰ.tail m) = collect-Mem f is (i + 1) k h x m

round_robin-within :
    (rr : RoundRobin) (req : RouteRequest) (cs : List Candidate) (i : ℕ)
    → Mem i (RoundRobin.order rr req cs).1.order
    → Mem i (indices cs)
unfolding RoundRobin.order
round_robin-within rr req [] i m = m
round_robin-within rr req (c ∷ cs) i m = ∥∥₁_map m (
    collect-Mem _ (indices (c ∷ cs)) 0 (length (c ∷ cs))
      (λ j. index_at-Mem (c ∷ cs) _ (mod-lt ((rr.cursor + j) % u64_mod) (omega arith))) i)

module _ (J : Json) (fp : Double) (xxh64 : Bytes → ℕ) (routing : RoutingConfig fp) where
  -- Under either policy the order lists indices of candidates only, even where the cursor wraps.
  pub order_candidates-within :
      (rr : RoundRobin) (req : ChatCompletionRequest J) (cs : List Candidate) (i : ℕ)
      → Mem i (order_candidates J fp xxh64 routing rr req cs).1.order
      → Mem i (indices cs)
  unfolding order_candidates
  order_candidates-within rr req cs i = of_policy routing.policy refl
    where
      of_policy :
          (p : RoutingPolicy)
          → routing.policy ≡ p
          → Mem i (order_candidates J fp xxh64 routing rr req cs).1.order
          → Mem i (indices cs)
      of_policy prefix_affinity e m =
          Perm.subset (order-perm fp xxh64 routing.load_threshold _ cs) i (rw e at m)
      of_policy round_robin e m = round_robin-within rr _ cs i (rw e at m)

  -- Under prefix affinity, two requests whose canonical texts agree on the first `prefix_bytes` bytes are
  -- given the same order and the same spills, among the same candidates.
  pub order_candidates-prefix :
      (rr : RoundRobin) (a b : ChatCompletionRequest J) (cs : List Candidate)
      → routing.policy ≡ prefix_affinity
      → take routing.prefix_bytes (canonical a.model (turns J a))
        ≡ take routing.prefix_bytes (canonical b.model (turns J b))
      → order_candidates J fp xxh64 routing rr a cs ≡ order_candidates J fp xxh64 routing rr b cs
  unfolding order_candidates
  order_candidates-prefix rr a b cs policy same =
      let key : affinity_key J fp xxh64 routing a ≡ affinity_key J fp xxh64 routing b =
        canonical_affinity_string_lem a.model (turns J a) (pos routing.prefix_bytes)
        ∙ same
        ∙ sym (canonical_affinity_string_lem b.model (turns J b) (pos routing.prefix_bytes)) in
      rw (order_candidates, policy, key) refl

  -- Under prefix affinity, once the canonical text of a conversation fills the budget, every later turn of
  -- it, which repeats its messages and adds some, is given the same order and the same spills among the
  -- same candidates.
  pub order_candidates-later_turn :
      (rr : RoundRobin) (a b : ChatCompletionRequest J) (more : List (ChatMessage J))
      (cs : List Candidate)
      → routing.policy ≡ prefix_affinity
      → b.model ≡ a.model
      → b.messages ≡ a.messages ++ more
      → routing.prefix_bytes ≤ length (canonical a.model (turns J a))
      → order_candidates J fp xxh64 routing rr b cs ≡ order_candidates J fp xxh64 routing rr a cs
  order_candidates-later_turn rr a b more cs policy model messages full =
      order_candidates-prefix rr b a cs policy (
        ap (take routing.prefix_bytes) longer
        ∙ take-over routing.prefix_bytes (canonical a.model (turns J a)) (flat (map (turn J) more))
            full)
    where
      longer :
          canonical b.model (turns J b) ≡ canonical a.model (turns J a) ++ flat (map (turn J) more)
      longer =
          rw (model, messages, map-append, flat-append)
            (sym (append_assoc a.model (0x1f ∷ flat (turns J a)) (flat (map (turn J) more))))

  -- The key that `affinity_key_for_request` makes of a request is the hash of the one that the gateway
  -- routes by, if no message has an array of parts as its content.
  pub affinity_key-affinity_key_for_request :
      (req : ChatCompletionRequest J)
      → All (λ m. J.as_array m.content ≡ none) req.messages
      → xxh64 (affinity_key J fp xxh64 routing req)
        ≡ affinity_key_for_request J xxh64 req (pos routing.prefix_bytes)
  unfolding affinity_key_for_request content_text content_to_string
  affinity_key-affinity_key_for_request req plain =
      ap (λ ts. xxh64 (canonical_affinity_string req.model ts (pos routing.prefix_bytes)))
        (same_turns req.messages plain)
    where
      same_text :
          (c : Json.Value J) → J.as_array c ≡ none → content_text J c ≡ content_to_string J c
      same_text c e = elim (Option-cases (J.as_string c)) [
        | inr (s, h) ↦ rw (content_text, content_to_string, h) refl
        | inl h ↦ elim (Bool-cases (J.is_null c)) [
          | inl n ↦ rw (content_text, content_to_string, h, n) refl
          | inr n ↦ rw (content_text, content_to_string, h, n, e) refl
        ]
      ]

      same_turns :
          (ms : List (ChatMessage J))
          → All (λ m. J.as_array m.content ≡ none) ms
          → map (turn J) ms ≡ map (λ m. (m.role, content_to_string J m.content)) ms
      same_turns [] h = refl
      same_turns (m ∷ ms) (h, hs) =
          ap₂ (λ (t : Bytes) (ts : List (Bytes × Bytes)). (m.role, t) ∷ ts) (same_text m.content h)
            (same_turns ms hs)

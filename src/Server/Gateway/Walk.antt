-- ===== src/Server/Gateway/Walk.antt =====
-- The failover walk of `handle_chat` in src/server/gateway.cpp. What other requests do to the backends while
-- this one waits for its upstream is an argument of each round, and so are the times.
use kvmux.Prelude.{
  ℕ, ◌+◌, Bool, not, ◌&&◌, Option, none, some, List, [], ◌∷◌, ◌++◌, ltb, leb, if◌then◌else◌,
  get_elem?, set, Bytes, is_empty,
}
use kvmux.Health.Breaker.{CircuitBreaker, Decision, allow_request, abort_probe}
use kvmux.Admission.Limiter.{try_acquire, release}
use kvmux.Upstream.Client.{UnaryExchange, Exchange, post_chat}
use kvmux.Server.Gateway.{Backend}
use kvmux.Server.Gateway.Attempt.{Render, Reply, Ending, unary_attempt, stream_attempt}

-- What the walk meets at one position of the order.
pub record Round : Type 0 where
  -- the time when the breaker is asked, when a probe is aborted, and when the outcome is reported
  pub asked : ℕ
  pub aborted : ℕ
  pub reported : ℕ
  -- what the others did to each backend while this request waited
  pub others : ℕ → Backend → Backend
  pub unary : UnaryExchange
  pub exchange : Exchange
  pub wire : List Bool

-- What the walk has changed: the backends, the attempts made and at which backends, and what it told the
-- registry (`inc_backend_failures` by name, `inc_affinity_spills` by name and number).
pub record Walk : Type 0 where
  pub backends : List Backend
  pub attempts : ℕ
  pub dispatched : List ℕ
  pub failures : List Bytes
  pub spilled : List (Bytes × ℕ)
  -- the status that is set for the request, 0 for none
  pub final_code : ℕ

pub record Request : Type 0 where
  pub stream : Bool
  pub keep_alive : Bool
  pub spills : ℕ

abbrev pub max_attempts : ℕ
max_attempts = 2

unfoldable pub map_from : ℕ → (ℕ → Backend → Backend) → List Backend → List Backend
map_from i f [] = []
map_from i f (b ∷ bs) = f i b ∷ map_from (i + 1) f bs

-- `if (!spills_recorded && spills > 0)`
unfoldable pub record_spills : Request → Backend → Walk → Walk
record_spills req b w =
    if is_empty w.spilled && ltb 0 req.spills
    then record w { spilled = (b.name, req.spills) ∷ [] }
    else w

module _ (js : Render) (req : Request) where
  unfoldable pub attempt : CircuitBreaker → Bool → Round → Bool → Ending
  attempt b is_probe r more =
      if not req.stream
      then unary_attempt js b is_probe r.reported more req.keep_alive (post_chat r.unary)
      else stream_attempt js b is_probe r.reported more req.keep_alive r.wire r.exchange

  -- The end of an attempt at backend `i`, which is `b` by then: the slot goes back as `slot` leaves scope.
  unfoldable pub conclude : ℕ → Backend → Ending → Walk → Walk × Option Reply
  conclude i b e w = (
    record w {
      backends = set w.backends i (record b { breaker = e.breaker; limiter = release b.limiter });
      final_code = e.code;
      failures = if e.counted then w.failures ++ b.name ∷ [] else w.failures;
    },
    e.reply,
  )

  -- From the slot acquired to the end of the attempt. `more` is whether `pos + 1 < order.size()`.
  unfoldable pub dispatch : ℕ → Backend → Bool → Round → Bool → Walk → Walk × Option Reply
  unfolding attempt conclude
  dispatch i b is_probe r more w =
      let w' = record w {
        backends = map_from 0 r.others (set w.backends i b);
        attempts = w.attempts + 1;
        dispatched = w.dispatched ++ i ∷ [];
      } in
      let b' = r.others i b in
      conclude i b' (attempt b'.breaker is_probe r (ltb w'.attempts max_attempts && more)) w'

  -- The breaker has decided and left `breaker`.
  unfoldable pub admit :
      ℕ → Backend → CircuitBreaker × Decision → Round → Bool → Walk → Walk × Option Reply
  unfolding dispatch
  admit i b (breaker, dec) r more w =
      if not dec.allowed
      then (record w { backends = set w.backends i (record b { breaker = breaker }) }, none)
      else (let (limiter, taken) = try_acquire b.limiter in
          if taken
          then dispatch i (record b { breaker = breaker; limiter = limiter }) dec.is_probe r more w
          else (
            record w {
              backends =
                  set w.backends i
                    (record b { breaker = abort_probe breaker dec.is_probe r.aborted });
            },
            none,
          ))

  -- One position of the loop; `none` is `continue`.
  unfoldable pub visit : ℕ → Round → Bool → Walk → Walk × Option Reply
  unfolding admit record_spills
  visit i r more w = elim (get_elem? w.backends i) [
    | none ↦ (w, none)
    | some b ↦ admit i b (allow_request b.breaker r.asked) r more (record_spills req b w)
  ]

  -- The loop from position `pos` on; `none` when it ends with no reply.
  unfoldable pub walk : (ℕ → Round) → ℕ → List ℕ → Walk → Walk × Option Reply
  unfolding visit
  walk rounds pos [] w = (w, none)
  walk rounds pos (i ∷ is) w =
      let (w', reply) = visit i (rounds pos) (not (is_empty is)) w in
      let rest = walk rounds (pos + 1) is w' in
      if leb max_attempts w.attempts
      then (w, none)
      else elim reply [ none ↦ rest | some r ↦ (w', some r) ]

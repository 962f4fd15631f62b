-- ===== src/Server/Gateway/Serve/Sent.antt =====
-- To which backends a request is sent.
use mathlib.Core.List.{Mem, not-mem-nil, Memᴰ}
use mathlib.Core.Logic.{∥∥₁_map}
use kvmux.Prelude.{ℕ, ◌≡◌, refl, Bool, some, List, [], ◌∷◌, get_elem?, All, Bytes}
use kvmux.Prelude.Double.{Double}
use kvmux.Config.{RoutingConfig}
use kvmux.Health.Checker.{healthy}
use kvmux.Admission.Gate.{AdmitStatus}
use kvmux.OpenAi.Json.{Json}
use kvmux.OpenAi.Request.{ChatCompletionRequest}
use kvmux.Routing.{Candidate}
use kvmux.Routing.RoundRobin.{RoundRobin}
use kvmux.Server.Gateway.{Backend, observed_health, candidates_of, backends_for_model}
use kvmux.Server.Gateway.Eligible.{IsListed, IsEligible, backends_for_model-IsEligible}
use kvmux.Server.Gateway.Walk.{Round}
use kvmux.Server.Gateway.Chat.{handle_chat}
use kvmux.Server.Gateway.Served.{indices, handle_chat-dispatched}
use kvmux.Server.Gateway.Policy.Sticky.{order_candidates-within}
use kvmux.Server.Gateway.Serve.{
  render, Body, not_json, refused, request, read_body, route_of, parsed_of, handle_text,
}

-- The backend of this index is healthy as observed, and serves the model.
abbrev pub IsFit : Bytes → List Backend → ℕ → Type 0
IsFit model bs i =
    (b : Backend) × (get_elem? bs i ≡ some b)
    × IsListed model b.models
    × (observed_health b ≡ healthy)

-- The body is accepted as a request, and the backend is fit for the model that it names.
abbrev pub IsFor : (J : Json) → Body J → List Backend → ℕ → Type 0
IsFor J body bs i = (req : ChatCompletionRequest J) × (body ≡ request req) × IsFit req.model bs i

indices-IsFit :
    (model : Bytes) (bs : List Backend) (cs : List Candidate) (i : ℕ)
    → All (IsEligible model bs) cs
    → Memᴰ i (indices cs)
    → IsFit model bs i
indices-IsFit model bs [] i h m = elim m [ ]
indices-IsFit model bs (c ∷ cs) i ((b, there, listed, well, load, cap), hs) (Memᴰ.head e) =
    (b, rw e there, listed, well)
indices-IsFit model bs (c ∷ cs) i (h, hs) (Memᴰ.tail m) = indices-IsFit model bs cs i hs m

module _ (J : Json) (fp : Double) (xxh64 : Bytes → ℕ) (routing : RoutingConfig fp) (rr : RoundRobin)
    (keep_alive : Bool) (rounds : ℕ → Round) where
  body-IsFit :
      (status : AdmitStatus) (body : Body J) (bs : List Backend) (i : ℕ)
      → Mem i
          (handle_chat
            (render J)
            keep_alive
            (route_of J fp xxh64 routing rr body)
            rounds
            status
            (parsed_of J fp xxh64 routing rr body)
            bs).walk_state.dispatched
      → ∥ IsFor J body bs i ∥₁
  unfolding handle_chat
  body-IsFit status not_json bs i m = elim (not-mem-nil m) [ ]
  body-IsFit status (refused e) bs i m = elim (not-mem-nil m) [ ]
  body-IsFit status (request req) bs i m =
      ∥∥₁_map
        (handle_chat-dispatched (render J) keep_alive (route_of J fp xxh64 routing rr (request req))
          rounds (order_candidates-within J fp xxh64 routing rr req) status req.stream req.model bs
          i m)
        (λ d. (
          req,
          refl,
          indices-IsFit req.model bs (candidates_of bs (backends_for_model bs req.model)) i
              (backends_for_model-IsEligible req.model bs) d,
        ))

  -- Under either policy, and whatever the gate, the upstreams and the other requests do, a chat request is
  -- sent to a backend only if its body is accepted, and then to one that serves the model which the body
  -- names and is healthy as observed.
  pub handle_text-IsFit :
      (status : AdmitStatus) (text : Bytes) (bs : List Backend) (i : ℕ)
      → Mem i
          (handle_text J fp xxh64 routing rr keep_alive rounds status text bs).walk_state.dispatched
      → ∥ IsFor J (read_body J text) bs i ∥₁
  unfolding handle_text
  handle_text-IsFit status text bs i m = body-IsFit status (read_body J text) bs i m

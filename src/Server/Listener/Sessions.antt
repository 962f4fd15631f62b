-- ===== src/Server/Listener/Sessions.antt =====
-- Sessions of a gateway that begins to drain.
use kvmux.OpenAi.Errors.{no_backend}
use kvmux.Prelude.{
  ℕ, ◌≡◌, refl, ap, ◌⊎◌, inl, inr, Bool, true, false, Option, none, some, List, [], ◌∷◌, ◌++◌,
  if◌then◌else◌, Bool-cases, Option-cases, All, Bytes, codes,
}
use kvmux.Server.Gateway.{Backend}
use kvmux.Server.Gateway.Attempt.{Render, Reply, json_reply, sse_reply, raised}
use kvmux.Server.Gateway.Routes.{Method, handle}
use kvmux.Server.Listener.{Ended, closed, run_session}

-- What `run_session` sees of a reply, where the write of a JSON response may fail with an exception.
abbrev pub answer : Bool → Reply → Option (Reply × Bool)
answer written (json_reply status body keep_alive) =
    if written then some (json_reply status body keep_alive, keep_alive) else none
answer written (sse_reply w keep_alive) = some (sse_reply w keep_alive, keep_alive)
answer written (raised w) = none

abbrev pub shutting_down : Render → Reply
shutting_down js =
    json_reply 503 (js.error_json no_backend (codes "gateway is shutting down") []) false

-- A request, and the gateway as it is when it comes: whether it drains, the backends, the chats in flight,
-- what the chat handler would do with the request, beside the other requests, and whether a JSON response
-- can be written.
pub record Turn {ℓ} (S : Type ℓ) : Type ℓ where
  pub method : Method
  pub target : Bytes
  pub draining : Bool
  pub backends : List Backend
  pub in_flight : ℕ
  pub chat : Bool → S × Reply
  pub others : ℕ → ℕ
  pub written : Bool

module _ {ℓ} {S : Type ℓ} (js : Render) where
  -- `gateway.handle` of a session.
  abbrev pub take_turn : Turn S → Bool → Option (Reply × Bool)
  take_turn t keep_alive =
      answer t.written
        (handle js keep_alive t.backends (t.chat keep_alive) t.others t.in_flight t.draining
          t.method t.target).reply

  abbrev pub gateway_session : List (Option (Turn S × Bool)) → List Reply × Ended
  gateway_session reads = run_session take_turn reads

  -- What is read comes when the gateway drains.
  abbrev pub IsLate : Option (Turn S × Bool) → Type 0
  IsLate none = Unit
  IsLate (some (t, keep_alive)) = t.draining ≡ true

  take_turn-drained :
      (t : Turn S) (keep_alive : Bool)
      → t.draining ≡ true
      → take_turn t keep_alive ≡ (if t.written then some (shutting_down js, false) else none)
  unfolding handle
  take_turn-drained t keep_alive h = simp h refl

  IsLate-shutting_down :
      (reads : List (Option (Turn S × Bool)))
      → All IsLate reads
      → ((gateway_session reads).0 ≡ []) ⊎ (gateway_session reads ≡ (shutting_down js ∷ [], closed))
  unfolding run_session
  IsLate-shutting_down [] h = inl refl
  IsLate-shutting_down (none ∷ reads) h = inl refl
  IsLate-shutting_down (some (t, keep_alive) ∷ reads) (h, hs) = elim (Bool-cases t.written) [
    | inl sent ↦ inr (rw (run_session, take_turn-drained t keep_alive h, sent) refl)
    | inr lost ↦ inl (rw (run_session, take_turn-drained t keep_alive h, lost) refl)
  ]

  -- Of what comes on a connection once the gateway drains, one request at most is answered, with 503, and
  -- the connection is then closed; what came before is answered as if nothing had come after.
  pub gateway_session-drained :
      (before after : List (Option (Turn S × Bool)))
      → All IsLate after
      → ((gateway_session (before ++ after)).0 ≡ (gateway_session before).0)
        ⊎ (gateway_session (before ++ after)
            ≡ ((gateway_session before).0 ++ shutting_down js ∷ [], closed))
  unfolding run_session
  gateway_session-drained [] after h = IsLate-shutting_down after h
  gateway_session-drained (none ∷ before) after h = inl refl
  gateway_session-drained (some (t, keep_alive) ∷ before) after h =
      elim (Option-cases (take_turn t keep_alive)) [
        | inl thrown ↦ rw (run_session, thrown) (inl refl)
        | inr ((reply, kept), e) ↦ elim (Bool-cases kept) [
          | inr shut ↦ rw (run_session, e, shut) (inl refl)
          | inl stays ↦ elim (gateway_session-drained before after h) [
            | inl same ↦ rw (run_session, e, stays) (inl (ap (◌∷◌ reply) same))
            | inr last ↦ rw (run_session, e, stays) (inr (ap (λ x. (reply ∷ x.0, x.1)) last))
          ]
        ]
      ]

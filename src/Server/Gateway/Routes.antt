-- ===== src/Server/Gateway/Routes.antt =====
-- `Gateway::handle` of src/server/gateway.cpp: draining, the routes, and the count of chats in flight.
use kvmux.Prelude.{
  ◌+◌, ◌-◌, ◌≡◌, refl, ◌⊎◌, inl, inr, Bool, true, false, ◌||◌, Option, none, some, List, [], arith,
  if◌then◌else◌, Bool-cases, Bytes, codes, equal, equal_iff, ℕ,
}
use kvmux.Health.Checker.{starts_with}
use kvmux.OpenAi.Errors.{no_backend, not_found}
use kvmux.Server.Gateway.{Backend, list_models}
use kvmux.Server.Gateway.Attempt.{Render, Reply, json_reply}

pub data Method : Type 0 where
  get post other_method : Method

-- The state that `handle` reads and changes, with the chat handler's result in `S`.
pub record Entry {ℓ} (S : Type ℓ) : Type ℓ where
  pub reply : Reply
  pub in_flight : ℕ
  pub chat_result : Option S

-- Which of the branches takes a request that comes when the gateway is not draining.
pub data Route : Type 0 where
  healthz models chat_completions unknown : Route

unfoldable pub route_of : Method → Bytes → Route
route_of get target =
    if equal target (codes "/healthz")
    then healthz
    else if equal target (codes "/v1/models") || starts_with (codes "/v1/models") target
    then models
    else unknown
route_of post target =
    if equal target (codes "/v1/chat/completions") then chat_completions else unknown
route_of other_method target = unknown

route_of-chat :
    (method : Method) (target : Bytes)
    → route_of method target ≡ chat_completions
    → (method ≡ post) × (target ≡ codes "/v1/chat/completions")
unfolding route_of
route_of-chat get target h = ground arith
route_of-chat post target h = elim (Bool-cases (equal target (codes "/v1/chat/completions"))) [
  | inl e ↦ (refl, (equal_iff target (codes "/v1/chat/completions")).0 e)
  | inr e ↦ cc (rw e at h)
]
route_of-chat other_method target h = cc

module _ {ℓ} {S : Type ℓ} (js : Render) (keep_alive : Bool) (bs : List Backend) where
  -- `chat` is what `handle_chat` does, with its reply; `others` is what the other requests do to the
  -- count while it runs.
  unfoldable pub serve_route : (S × Reply) → (ℕ → ℕ) → ℕ → Route → Entry S
  serve_route chat others in_flight healthz = record {
    reply = json_reply 200 (codes "{\"status\":\"ok\"}") keep_alive;
    in_flight = in_flight;
    chat_result = none;
  }
  serve_route chat others in_flight models = record {
    reply = json_reply 200 (js.model_list (list_models [] bs)) keep_alive;
    in_flight = in_flight;
    chat_result = none;
  }
  serve_route (result, reply) others in_flight chat_completions = record {
    reply = reply;
    in_flight = others (in_flight + 1) - 1;
    chat_result = some result;
  }
  serve_route chat others in_flight unknown = record {
    reply = json_reply 404 (js.error_json not_found (codes "unknown route") []) keep_alive;
    in_flight = in_flight;
    chat_result = none;
  }

  unfoldable pub handle : (S × Reply) → (ℕ → ℕ) → ℕ → Bool → Method → Bytes → Entry S
  unfolding serve_route route_of
  handle chat others in_flight draining method target =
      if draining
      then record {
        reply =
            json_reply 503 (js.error_json no_backend (codes "gateway is shutting down") []) false;
        in_flight = in_flight;
        chat_result = none;
      }
      else serve_route chat others in_flight (route_of method target)

  serve_route_cases :
      (chat : S × Reply) (others : ℕ → ℕ) (in_flight : ℕ) (r : Route)
      → ((r ≡ chat_completions) × ((serve_route chat others in_flight r).chat_result ≡ some chat.0))
        ⊎ (((serve_route chat others in_flight r).chat_result ≡ none)
            × ((serve_route chat others in_flight r).in_flight ≡ in_flight)
            × (status : ℕ) × (body : Bytes) × (keep : Bool) × ((serve_route chat others in_flight
                  r).reply
                ≡ json_reply status body keep))
  unfolding serve_route
  serve_route_cases chat others in_flight healthz =
      inr (refl, refl, 200, codes "{\"status\":\"ok\"}", keep_alive, refl)
  serve_route_cases chat others in_flight models =
      inr (refl, refl, 200, js.model_list (list_models [] bs), keep_alive, refl)
  serve_route_cases chat others in_flight chat_completions = inl (refl, refl)
  serve_route_cases chat others in_flight unknown =
      inr (refl, refl, 404, js.error_json not_found (codes "unknown route") [], keep_alive, refl)

  -- The chat handler runs for a POST to its path alone, and only while the gateway is not draining. If it
  -- does not, the count of chats in flight stays, and the reply is one JSON body.
  pub handle_chat_only :
      (chat : S × Reply) (others : ℕ → ℕ) (in_flight : ℕ) (draining : Bool) (method : Method)
      (target : Bytes)
      → (((handle chat others in_flight draining method target).chat_result ≡ some chat.0)
          × (draining ≡ false)
          × (method ≡ post)
          × (target ≡ codes "/v1/chat/completions"))
        ⊎ (((handle chat others in_flight draining method target).chat_result ≡ none)
            × ((handle chat others in_flight draining method target).in_flight ≡ in_flight)
            × (status : ℕ) × (body : Bytes) × (keep : Bool) × ((handle chat others in_flight
                  draining method target).reply
                ≡ json_reply status body keep))
  unfolding handle serve_route route_of
  handle_chat_only chat others in_flight true method target =
      inr (
        refl,
        refl,
        503,
        js.error_json no_backend (codes "gateway is shutting down") [],
        false,
        refl,
      )
  handle_chat_only chat others in_flight false method target =
      elim (serve_route_cases chat others in_flight (route_of method target)) [
        | inl (at_chat, ran) ↦
            let (posted, path) = route_of-chat method target at_chat in
            inl (ran, refl, posted, path)
        | inr refused ↦ inr refused
      ]

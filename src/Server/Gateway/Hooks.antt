-- ===== src/Server/Gateway/Hooks.antt =====
-- The response of `write_json` and the hooks for tests, of src/server/gateway.cpp.
use kvmux.Prelude.{
  ℕ, ◌≡◌, refl, ◌≢◌, ◌↔◌, Bool, Option, none, some, List, ◌==◌, if◌then◌else◌, get_elem?, set,
  Bytes, codes,
}
use kvmux.Health.Breaker.{BreakerState, observed_state}
use kvmux.Health.Checker.{HealthState}
use kvmux.OpenAi.Errors.{
  ErrorKind, invalid_request, unknown_model, not_found, admission, upstream_failure, no_backend,
  upstream_timeout, status_code,
}
use kvmux.Server.Gateway.{Backend, observed_health}

-- The header fields and the body that `write_json` sets.
pub record JsonResponse : Type 0 where
  pub status : ℕ
  pub server : Bytes
  pub content_type : Bytes
  pub retry_after : Option Bytes
  pub keep_alive : Bool
  pub body : Bytes

unfoldable pub write_json : Bool → ℕ → Bytes → JsonResponse
write_json keep_alive status json_body = record {
  status = status;
  server = codes "kvmux";
  content_type = codes "application/json";
  retry_after = if status == 429 then some (codes "1") else none;
  keep_alive = keep_alive;
  body = json_body;
}

-- Of the gateway's own errors, those of admission and no others ask the client to retry.
pub write_json-status_code :
    (keep_alive : Bool) (kind : ErrorKind) (body : Bytes)
    → ((write_json keep_alive (status_code kind) body).retry_after ≢ none) ↔ (kind ≡ admission)
unfolding write_json status_code
write_json-status_code keep_alive admission body = (λ h. refl, λ h e. cc)
write_json-status_code keep_alive invalid_request body = (λ h. elim (h refl) [ ], λ h e. cc)
write_json-status_code keep_alive unknown_model body = (λ h. elim (h refl) [ ], λ h e. cc)
write_json-status_code keep_alive not_found body = (λ h. elim (h refl) [ ], λ h e. cc)
write_json-status_code keep_alive upstream_failure body = (λ h. elim (h refl) [ ], λ h e. cc)
write_json-status_code keep_alive no_backend body = (λ h. elim (h refl) [ ], λ h e. cc)
write_json-status_code keep_alive upstream_timeout body = (λ h. elim (h refl) [ ], λ h e. cc)

-- `backends_.at(i)` throws on an index out of range.
unfoldable pub set_health_for_test : List Backend → ℕ → HealthState → Option (List Backend)
set_health_for_test bs i st = elim (get_elem? bs i) [
  | none ↦ none
  | some b ↦ some (set bs i (record b { forced_health = some st }))
]

unfoldable pub health_of : List Backend → ℕ → Option HealthState
health_of bs i = elim (get_elem? bs i) [ none ↦ none | some b ↦ some (observed_health b) ]

unfoldable pub breaker_of : List Backend → ℕ → ℕ → Option BreakerState
breaker_of bs i now = elim (get_elem? bs i) [
  | none ↦ none
  | some b ↦ some (observed_state b.breaker now)
]

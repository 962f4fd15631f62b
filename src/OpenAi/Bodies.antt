-- ===== src/OpenAi/Bodies.antt =====
-- `make_error` and `wrap_upstream_error` of src/openai/errors.cpp, `to_json` of a model card, and the body of
-- `handle_models`. Rendering does not throw here: a message that is not valid UTF-8 makes `dump` throw.
pub mod Shapes
use kvmux.Prelude.{
  ℕ, Bool, true, false, ◌&&◌, Option, none, some, List, [], ◌∷◌, map, if◌then◌else◌, Bytes, codes,
  is_empty,
}
use kvmux.OpenAi.Errors.{ErrorKind, status_code, error_type}
use kvmux.OpenAi.Json.{Json}

pub record ModelCard : Type 0 where
  pub id : Bytes
  pub owned_by : Bytes
  pub created : ℕ

-- The card that `handle_models` makes of an id.
abbrev pub card : Bytes → ModelCard
card m = record { id = m; owned_by = codes "kvmux"; created = 0 }

module _ (J : Json) where
  unfoldable pub make_error : ErrorKind → Bytes → Bytes → Json.Value J
  unfolding error_type status_code
  make_error kind message param =
      let err : Json.Value J = J.object (
        (codes "message", J.string message)
        ∷ (codes "type", J.string (error_type kind))
        ∷ (codes "code", J.number (status_code kind))
        ∷ []) in
      J.object (
        (
          codes "error",
          J.set err (codes "param") (if is_empty param then J.null else J.string param),
        )
        ∷ [])

  -- The object that an upstream error is wrapped in.
  abbrev pub wrap_text : Bytes → ℕ → Json.Value J
  wrap_text text http_status = J.object (
      (
        codes "error",
        J.object (
            (codes "message", J.string text)
            ∷ (codes "type", J.string (codes "upstream_error"))
            ∷ (codes "param", J.null)
            ∷ (codes "code", J.number http_status)
            ∷ []),
      )
      ∷ [])

  abbrev pub has : Json.Value J → Bytes → Bool
  has j k = elim (J.find j k) [ none ↦ false | some v ↦ true ]

  abbrev pub wrap_raw : Bytes → ℕ → Json.Value J
  wrap_raw body http_status =
      wrap_text (if is_empty body then codes "upstream request failed" else body) http_status

  -- What is done with the member `e` of a parsed body.
  unfoldable pub wrap_member : Json.Value J → Json.Value J → Bytes → ℕ → Json.Value J
  wrap_member parsed e body http_status =
      if J.is_object e && has e (codes "message") then parsed else elim (J.as_string e) [
        | some text ↦ wrap_text text http_status
        | none ↦ wrap_raw body http_status
      ]

  -- From the parsed body on.
  unfoldable pub wrap_parsed : Option (Json.Value J) → Bytes → ℕ → Json.Value J
  unfolding wrap_member
  wrap_parsed none body http_status = wrap_raw body http_status
  wrap_parsed (some parsed) body http_status =
      if J.is_object parsed
      then elim (J.find parsed (codes "error")) [
        | none ↦ wrap_raw body http_status
        | some e ↦ wrap_member parsed e body http_status
      ]
      else wrap_raw body http_status

  unfoldable pub wrap_upstream_error : Bytes → ℕ → Json.Value J
  unfolding wrap_parsed
  wrap_upstream_error body http_status = wrap_parsed (J.parse body) body http_status

  unfoldable pub to_json : ModelCard → Json.Value J
  to_json m = J.object (
      (codes "id", J.string m.id)
      ∷ (codes "object", J.string (codes "model"))
      ∷ (codes "created", J.number m.created)
      ∷ (codes "owned_by", J.string m.owned_by)
      ∷ [])

  -- The body of the answer to `/v1/models`.
  unfoldable pub models_body : List Bytes → Json.Value J
  unfolding to_json
  models_body ids = J.object (
      (codes "object", J.string (codes "list"))
      ∷ (codes "data", J.array (map (λ m. to_json (card m)) ids))
      ∷ [])

-- ===== src/OpenAi/Request.antt =====
-- `ChatMessage`, `ChatCompletionRequest` of src/openai/types.hpp, `RequestError` of errors.hpp, and
-- `ChatCompletionRequest::parse` of errors.cpp.
pub mod Views
pub mod Blame
use kvmux.Prelude.{Bool, false, not, Option, none, some, List, [], ◌∷◌, Bytes, codes}
use kvmux.Prelude.Result.{Result, ok, err, ◌>>=◌, ◌>>◌, throw_if}
use kvmux.OpenAi.Errors.{ErrorKind, invalid_request}
use kvmux.OpenAi.Json.{Json}

pub record RequestError : Type 0 where
  pub kind : ErrorKind
  pub message : Bytes
  pub param : Bytes

abbrev pub invalid : Bytes → Bytes → RequestError
invalid message param = record { kind = invalid_request; message = message; param = param }

pub record ChatMessage (J : Json) : Type 0 where
  pub role : Bytes
  pub content : Json.Value J

pub record ChatCompletionRequest (J : Json) : Type 0 where
  pub model : Bytes
  pub messages : List (ChatMessage J)
  pub stream : Bool
  pub raw : Json.Value J

abbrev pub bad_role : RequestError
bad_role = invalid (codes "each message requires a string 'role'") (codes "messages")

module _ (J : Json) where
  abbrev pub Run : Type 0 → Type 0
  Run A = Result RequestError A

  -- A member that has to be there, with a view of it; or an error.
  unfoldable pub required :
      {A : Type 0} → Json.Value J → Bytes → (Json.Value J → Option A) → RequestError → Run A
  required j key view e = elim (J.find j key) [
    | none ↦ err e
    | some v ↦ elim (view v) [ none ↦ err e | some a ↦ ok a ]
  ]

  abbrev pub content_of : Json.Value J → Json.Value J
  content_of m = elim (J.find m (codes "content")) [ none ↦ J.null | some c ↦ c ]

  -- One round of the loop over the messages.
  unfoldable pub parse_message : Json.Value J → Run (ChatMessage J)
  unfolding required
  parse_message m = do
    throw_if (not (J.is_object m)) bad_role
    role ← required m (codes "role") J.as_string bad_role
    ok (record { role = role; content = content_of m })

  unfoldable pub parse_messages : List (Json.Value J) → Run (List (ChatMessage J))
  unfolding parse_message
  parse_messages [] = ok []
  parse_messages (m ∷ ms) = do msg ← parse_message m; rest ← parse_messages ms; ok (msg ∷ rest)

  abbrev pub some_items : Json.Value J → Option (List (Json.Value J))
  some_items v = elim (J.as_array v) [
    | none ↦ none
    | some items ↦ elim items [ [] ↦ none | m ∷ ms ↦ some (m ∷ ms) ]
  ]

  unfoldable pub parse_stream : Json.Value J → Run Bool
  parse_stream body = elim (J.find body (codes "stream")) [
    | none ↦ ok false
    | some v ↦ elim (J.as_bool v) [
      | none ↦ err (invalid (codes "'stream' must be a boolean") (codes "stream"))
      | some b ↦ ok b
    ]
  ]

  unfoldable pub parse : Json.Value J → Run (ChatCompletionRequest J)
  unfolding parse_messages parse_stream required
  parse body = do
    throw_if (not (J.is_object body)) (invalid (codes "request body must be a JSON object") [])
    model ←
        required body (codes "model") J.as_string
          (invalid (codes "missing or invalid required field 'model'") (codes "model"))
    items ←
        required body (codes "messages") some_items
          (invalid (codes "missing or invalid required field 'messages'") (codes "messages"))
    messages ← parse_messages items
    stream ← parse_stream body
    ok (record { model = model; messages = messages; stream = stream; raw = body })

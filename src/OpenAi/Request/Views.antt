-- ===== src/OpenAi/Request/Views.antt =====
-- Which requests are accepted, and what the errors blame.
use kvmux.Prelude.{
  match_some, ◌≡◌, refl, sym, ap, ◌≢◌, ◌↔◌, ◌⊎◌, inl, inr, Bool, true, false, not, Option, none,
  some, List, [], ◌∷◌, Bytes, codes,
}
use kvmux.Prelude.Result.{
  ok, ◌>>=◌, ◌>>◌, throw_if, Ensures, holds, thrown, Ensures-ok, Ensures-bind, Ensures-then,
}
use kvmux.OpenAi.Json.{Json}
use kvmux.OpenAi.Request.{
  bad_role, RequestError, ChatMessage, ChatCompletionRequest, required, content_of, some_items,
  parse_message, parse_messages, parse_stream, parse,
}

module _ (J : Json) where
  -- The member is there, and the view of it gives `a`.
  abbrev pub Field : {A : Type 0} → Json.Value J → Bytes → (Json.Value J → Option A) → A → Type 0
  Field j key view a = (v : Json.Value J) × (J.find j key ≡ some v) × (view v ≡ some a)

  pub record IsMessage (m : Json.Value J) (msg : ChatMessage J) : Type 0 where
    pub object : J.is_object m ≡ true
    pub role : Field m (codes "role") J.as_string msg.role
    pub content :
        ((J.find m (codes "content") ≡ none) × (msg.content ≡ J.null))
        ⊎ (J.find m (codes "content") ≡ some msg.content)

  abbrev pub AreMessages : List (Json.Value J) → List (ChatMessage J) → Type 0
  AreMessages [] [] = Unit
  AreMessages [] (msg ∷ msgs) = ⊥
  AreMessages (m ∷ ms) [] = ⊥
  AreMessages (m ∷ ms) (msg ∷ msgs) = IsMessage m msg × AreMessages ms msgs

  -- What the interface asks of a body, and what of it the request holds.
  pub record IsRequest (body : Json.Value J) (req : ChatCompletionRequest J) : Type 0 where
    pub object : J.is_object body ≡ true
    pub model : Field body (codes "model") J.as_string req.model
    pub items : List (Json.Value J)
    pub array : Field body (codes "messages") J.as_array items
    pub some_item : items ≢ []
    pub messages : AreMessages items req.messages
    pub stream :
        ((J.find body (codes "stream") ≡ none) × (req.stream ≡ false))
        ⊎ Field body (codes "stream") J.as_bool req.stream
    pub raw : req.raw ≡ body

  pub required-Ensures :
      {A : Type 0} (j : Json.Value J) (key : Bytes) (view : Json.Value J → Option A)
      (e : RequestError)
      → Ensures (Field j key view) (required J j key view e)
  unfolding required
  required-Ensures j key view e =
      match_some (Ensures _) (J.find j key) (λ gone. thrown)
        (λ v there.
          match_some (Ensures _) (view v) (λ wrong. thrown) (λ a right. holds (v, there, right)))

  required-found :
      {A : Type 0} (j : Json.Value J) (key : Bytes) (view : Json.Value J → Option A)
      (e : RequestError) (a : A)
      → Field j key view a
      → required J j key view e ≡ ok a
  unfolding required
  required-found j key view e a (v, there, right) = rw (required, there, right) refl

  throw_if-ok : (b : Bool) (e : RequestError) → throw_if (not b) e ≡ ok tt → b ≡ true
  throw_if-ok true e h = refl
  throw_if-ok false e h = cc

  content_of-found :
      (m : Json.Value J)
      → ((J.find m (codes "content") ≡ none) × (content_of J m ≡ J.null))
        ⊎ (J.find m (codes "content") ≡ some (content_of J m))
  content_of-found m =
      match_some
        (λ c.
          ((J.find m (codes "content") ≡ none) × (c ≡ J.null))
          ⊎ (J.find m (codes "content") ≡ some c))
        (J.find m (codes "content")) (λ gone. inl (gone, refl)) (λ c there. inr there)

  parse_message-Ensures : (m : Json.Value J) → Ensures (IsMessage m) (parse_message J m)
  unfolding parse_message
  parse_message-Ensures m = Ensures-then (λ o.
      Ensures-bind (required-Ensures m (codes "role") J.as_string _) (λ role r.
        holds (record { object = throw_if-ok _ _ o; role = r; content = content_of-found m })))

  parse_messages-Ensures :
      (ms : List (Json.Value J)) → Ensures (AreMessages ms) (parse_messages J ms)
  unfolding parse_messages
  parse_messages-Ensures [] = holds tt
  parse_messages-Ensures (m ∷ ms) =
      Ensures-bind (parse_message-Ensures m)
        (λ msg h. Ensures-bind (parse_messages-Ensures ms) (λ msgs hs. holds (h, hs)))

  parse_stream-Ensures :
      (body : Json.Value J)
      → Ensures
          (λ b.
            ((J.find body (codes "stream") ≡ none) × (b ≡ false))
            ⊎ Field body (codes "stream") J.as_bool b)
          (parse_stream J body)
  unfolding parse_stream
  parse_stream-Ensures body =
      match_some (Ensures _) (J.find body (codes "stream")) (λ gone. holds (inl (gone, refl)))
        (λ v there.
          match_some (Ensures _) (J.as_bool v) (λ wrong. thrown)
            (λ b right. holds (inr (v, there, right))))

  pub some_items-array :
      (v : Json.Value J) (items : List (Json.Value J))
      → (some_items J v ≡ some items) ↔ ((J.as_array v ≡ some items) × (items ≢ []))
  some_items-array v items =
      match_some (λ o. (o ≡ some items) ↔ ((J.as_array v ≡ some items) × (items ≢ [])))
        (J.as_array v) (λ wrong. (λ h. cc, λ h. cc (h.0, wrong))) (λ all right. of_items all right)
    where
      of_items :
          (all : List (Json.Value J))
          → J.as_array v ≡ some all
          → (elim all as (λ x. Option (List (Json.Value J))) [ [] ↦ none | m ∷ ms ↦ some (m ∷ ms) ]
              ≡ some items)
            ↔ ((J.as_array v ≡ some items) × (items ≢ []))
      of_items [] right = (λ h. cc, λ (array, some_item). elim (some_item (cc)) [ ])
      of_items (m ∷ ms) right = (λ h. (cc, λ e. cc), λ (array, some_item). cc)

  parse-Ensures : (body : Json.Value J) → Ensures (IsRequest body) (parse J body)
  unfolding parse
  parse-Ensures body = Ensures-then (λ o.
      Ensures-bind (required-Ensures body (codes "model") J.as_string _) (λ model m.
        Ensures-bind (required-Ensures body (codes "messages") (some_items J) _)
          (λ items (v, there, right). Ensures-bind (parse_messages-Ensures items) (λ messages ms.
            Ensures-bind (parse_stream-Ensures body) (λ stream s.
              let (array, some_item) = (some_items-array v items).0 right in
              holds (record {
                object = throw_if-ok _ _ o;
                model = m;
                items = items;
                array = (v, there, array);
                some_item = some_item;
                messages = ms;
                stream = s;
                raw = refl;
              }))))))

  parse_message-found :
      (m : Json.Value J) (msg : ChatMessage J) → IsMessage m msg → parse_message J m ≡ ok msg
  unfolding parse_message ◌>>=◌ ◌>>◌
  parse_message-found m msg h =
      rw (h.object, required-found m (codes "role") J.as_string bad_role msg.role h.role)
        (ap (λ c. ok (record { role = msg.role; content = c })) (same h.content))
    where
      same :
          ((J.find m (codes "content") ≡ none) × (msg.content ≡ J.null))
            ⊎ (J.find m (codes "content") ≡ some msg.content)
          → content_of J m ≡ msg.content
      same (inl (gone, empty)) = rw (content_of, gone) (sym empty)
      same (inr there) = rw (content_of, there) refl

  pub parse_messages-found :
      (ms : List (Json.Value J)) (msgs : List (ChatMessage J))
      → AreMessages ms msgs
      → parse_messages J ms ≡ ok msgs
  unfolding parse_messages ◌>>=◌
  parse_messages-found [] [] h = refl
  parse_messages-found [] (msg ∷ msgs) h = elim h [ ]
  parse_messages-found (m ∷ ms) [] h = elim h [ ]
  parse_messages-found (m ∷ ms) (msg ∷ msgs) (h, hs) =
      rw (parse_message-found m msg h, parse_messages-found ms msgs hs) refl

  parse_stream-found :
      (body : Json.Value J) (b : Bool)
      → ((J.find body (codes "stream") ≡ none) × (b ≡ false))
        ⊎ Field body (codes "stream") J.as_bool b
      → parse_stream J body ≡ ok b
  unfolding parse_stream
  parse_stream-found body b (inl (gone, off)) = rw (parse_stream, gone, off) refl
  parse_stream-found body b (inr (v, there, right)) = rw (parse_stream, there, right) refl

  parse-found :
      (body : Json.Value J) (req : ChatCompletionRequest J)
      → IsRequest body req
      → parse J body ≡ ok req
  unfolding parse ◌>>=◌ ◌>>◌
  parse-found body req h =
      let (v, there, array) = h.array in
      rw
        (
          h.object,
          required-found body (codes "model") J.as_string _ req.model h.model,
          required-found body (codes "messages") (some_items J) _ h.items
              (v, there, (some_items-array v h.items).1 (array, h.some_item)),
          parse_messages-found h.items req.messages h.messages,
          parse_stream-found body req.stream h.stream,
        )
        (ap
          (λ r.
            ok
              (record { model = req.model; messages = req.messages; stream = req.stream; raw = r }))
          (sym h.raw))

  -- A body is accepted as a given request exactly if it is an object with a string `model`, a non-empty
  -- array `messages` of objects with a string `role` each, and a Boolean `stream` or none, and the request
  -- holds just these, with the messages in their order, null for a missing content, and false for a
  -- missing `stream`.
  pub parse_iff :
      (body : Json.Value J) (req : ChatCompletionRequest J)
      → (parse J body ≡ ok req) ↔ IsRequest body req
  parse_iff body req = (Ensures-ok (parse-Ensures body), parse-found body req)

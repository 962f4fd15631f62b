-- ===== src/OpenAi/Request/Blame.antt =====
-- What the errors of `ChatCompletionRequest::parse` blame.
use kvmux.Prelude.{
  ◌≡◌, refl, ◌≢◌, ◌⊎◌, inl, inr, false, Option, none, some, List, [], ◌∷◌, arith, match_some, Bytes,
  codes,
}
use mathlib.Core.Path.{subst}
use kvmux.Prelude.Result.{
  Ensures-ok, Fails-steps, ok, err, Fails, fails, succeeds, Fails-err, Fails-bind, Fails-then,
  Fails-throw_if, Fails-because,
}
use kvmux.OpenAi.Errors.{invalid_request}
use kvmux.OpenAi.Json.{Json}
use kvmux.OpenAi.Request.{
  RequestError, ChatMessage, required, bad_role, some_items, parse_message, parse_messages,
  parse_stream, parse,
}
use kvmux.OpenAi.Request.Views.{
  required-Ensures, Field, AreMessages, parse_messages-found, some_items-array,
}

module _ (J : Json) where
  -- The parameter that an error names, and what is wrong with it.
  abbrev pub Blames : Json.Value J → RequestError → Type 0
  Blames body e =
      ((e.param ≡ []) × (J.is_object body ≡ false))
      ⊎ (((e.param ≡ codes "model")
            × ((model : Bytes) → ¬ Field J body (codes "model") J.as_string model))
          ⊎ (((e.param ≡ codes "messages")
                × ((items : List (Json.Value J)) (messages : List (ChatMessage J))
                    → Field J body (codes "messages") J.as_array items
                    → items ≢ []
                    → ¬ AreMessages J items messages))
              ⊎ ((e.param ≡ codes "stream")
                  × (v : Json.Value J) × (J.find body (codes "stream") ≡ some v)
                  × (J.as_bool v ≡ none))))

  required-Fails :
      {A : Type 0} (j : Json.Value J) (key : Bytes) (view : Json.Value J → Option A)
      (e : RequestError)
      → Fails (λ e'. (e' ≡ e) × ((a : A) → ¬ Field J j key view a)) (required J j key view e)
  unfolding required
  required-Fails j key view e =
      match_some (Fails _) (J.find j key) (λ gone. fails (refl, λ a (v, there, right). cc))
        (λ v there.
          match_some (Fails _) (view v) (λ wrong. fails (refl, λ a (v', there', right). cc))
            (λ a right. succeeds))

  parse_message-Fails : (m : Json.Value J) → Fails (λ e. e ≡ bad_role) (parse_message J m)
  unfolding parse_message
  parse_message-Fails m = Fails-then (Fails-throw_if _ _ (λ h. refl)) (
      Fails-bind
        (Fails-because _
          (λ e h. (Fails-err (required-Fails m (codes "role") J.as_string bad_role) h).0))
        (λ role. succeeds))

  parse_messages-Fails :
      (ms : List (Json.Value J)) → Fails (λ e. e ≡ bad_role) (parse_messages J ms)
  unfolding parse_messages
  parse_messages-Fails [] = succeeds
  parse_messages-Fails (m ∷ ms) =
      Fails-bind (parse_message-Fails m)
        (λ msg. Fails-bind (parse_messages-Fails ms) (λ rest. succeeds))

  parse_stream-Fails :
      (body : Json.Value J)
      → Fails
          (λ e.
            (e.kind ≡ invalid_request)
            × (e.param ≡ codes "stream")
            × (v : Json.Value J) × (J.find body (codes "stream") ≡ some v)
            × (J.as_bool v ≡ none))
          (parse_stream J body)
  unfolding parse_stream
  parse_stream-Fails body =
      match_some (Fails _) (J.find body (codes "stream")) (λ gone. succeeds)
        (λ v there.
          match_some (Fails _) (J.as_bool v) (λ wrong. fails (refl, refl, v, there, wrong))
            (λ b right. succeeds))

  -- The messages that a failed loop was given are not all messages.
  bad_messages :
      (ms : List (Json.Value J)) (e : RequestError)
      → parse_messages J ms ≡ err e
      → (e ≡ bad_role) × ((msgs : List (ChatMessage J)) → ¬ AreMessages J ms msgs)
  bad_messages ms e h = (
    Fails-err (parse_messages-Fails ms) h,
    λ msgs all. cc (h, parse_messages-found J ms msgs all),
  )

  same_items :
      (body : Json.Value J) (xs ys : List (Json.Value J))
      → Field J body (codes "messages") J.as_array xs
      → Field J body (codes "messages") J.as_array ys
      → xs ≡ ys
  same_items body xs ys (v, there, right) (v', there', right') = cc

  found_array :
      (body : Json.Value J) (items : List (Json.Value J)) (e : RequestError)
      → required J body (codes "messages") (some_items J) e ≡ ok items
      → Field J body (codes "messages") J.as_array items
  found_array body items e h =
      let (v, there, right) =
        Ensures-ok (required-Ensures J body (codes "messages") (some_items J) e) h in
      (v, there, ((some_items-array J v items).0 right).0)

  parse-Fails :
      (body : Json.Value J) → Fails (λ e. (e.kind ≡ invalid_request) × Blames body e) (parse J body)
  unfolding parse
  parse-Fails body = Fails-then (Fails-throw_if _ _ (λ h. (refl, inl (refl, ground arith)))) (
      Fails-bind
        (Fails-because _ (λ e h.
          let (which, gone) = Fails-err (required-Fails body (codes "model") J.as_string _) h in
          rw which (refl, inr (inl (refl, gone)))))
        (λ model.
          Fails-steps _
            (λ e h.
              let (which, gone) =
                Fails-err (required-Fails body (codes "messages") (some_items J) _) h in
              rw which (
                refl,
                inr (
                    inr (
                      inl (
                        refl,
                        λ items msgs (v, there, array) some_item all.
                            gone items
                              (v, there, (some_items-array J v items).1 (array, some_item)),
                      ))),
              ))
            (λ items found.
              Fails-steps _
                (λ e h.
                  let (which, other) = bad_messages items e h in
                  rw which (
                    refl,
                    inr (
                        inr (
                          inl (
                            refl,
                            λ items' msgs there some_item all. other msgs (
                                subst (λ l. AreMessages J l msgs)
                                  (same_items body items' items there
                                    (found_array body items _ found))
                                  all),
                          ))),
                  ))
                (λ messages parsed.
                  Fails-steps _
                    (λ e h.
                      let (kind, param, v, there, wrong) = Fails-err (parse_stream-Fails body) h in
                      (kind, inr (inr (inr (param, v, there, wrong)))))
                    (λ stream on. succeeds)))))

  -- Every body that is refused is refused as an invalid request, and the parameter that the error names is
  -- at fault: none if the body is no object, and else `model`, `messages` or `stream`.
  pub parse-Blames :
      (body : Json.Value J) (e : RequestError)
      → parse J body ≡ err e
      → (e.kind ≡ invalid_request) × Blames body e
  parse-Blames body e h = Fails-err (parse-Fails body) h

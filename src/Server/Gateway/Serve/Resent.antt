-- ===== src/Server/Gateway/Serve/Resent.antt =====
-- What a backend reads of the request that is sent on to it.
use kvmux.Prelude.{◌≡◌, refl, ap, ◌∙◌, inl, inr, true, some, Option-cases, Bytes, codes}
use kvmux.Prelude.Result.{Result, ok, err}
use kvmux.OpenAi.Json.{Json, Laws}
use kvmux.OpenAi.Request.{RequestError, ChatCompletionRequest, parse}
use kvmux.OpenAi.Request.Views.{parse_iff}
use kvmux.Upstream.Usage.{inject_include_usage}
use kvmux.Upstream.Usage.Laws.{inject_include_usage_lem, inject_include_usage-parse}
use kvmux.Server.Gateway.Serve.{request, checked, read_body, upstream_text}

module _ (J : Json) where
  checked-request :
      (r : Result RequestError (ChatCompletionRequest J)) (req : ChatCompletionRequest J)
      → checked J r ≡ request req
      → r ≡ ok req
  checked-request (ok x) req e = cc
  checked-request (err x) req e = cc

  read_body-request :
      (text : Bytes) (req : ChatCompletionRequest J)
      → read_body J text ≡ request req
      → (body : Json.Value J) × (J.parse text ≡ some body) × (parse J body ≡ ok req)
  unfolding read_body
  read_body-request text req e = elim (Option-cases (J.parse text)) [
    | inl gone ↦ cc (rw (read_body, gone) at e)
    | inr (body, there) ↦
        (body, there, checked-request (parse J body) req (rw (read_body, there) at e))
  ]

  -- A backend that reads bodies as the gateway does accepts what is sent to it for an accepted request, with
  -- the client's model, messages and `stream` flag, and finds `include_usage` set in the stream options, if
  -- the JSON library reads back the text that it wrote for that body.
  pub upstream_text-read_body :
      (laws : Laws J) (text : Bytes) (req : ChatCompletionRequest J)
      → read_body J text ≡ request req
      → J.parse (J.dump (inject_include_usage J req.raw)) ≡ some (inject_include_usage J req.raw)
      → (read_body J (upstream_text J req)
          ≡ request (record req { raw = inject_include_usage J req.raw }))
        × (options : Json.Value J) × (J.find
              (inject_include_usage J req.raw)
              (codes "stream_options")
            ≡ some options)
        × (J.find options (codes "include_usage") ≡ some (J.bool true))
  unfolding read_body upstream_text
  upstream_text-read_body laws text req accepted reads =
      let (body, there, parsed) = read_body-request text req accepted in
      let h = (parse_iff J body req).0 parsed in
      let parsed_raw : parse J req.raw ≡ ok req = ap (parse J) h.raw ∙ parsed in
      let object : J.is_object req.raw ≡ true = ap J.is_object h.raw ∙ h.object in
      let (o, kept, options, found, whole, on, others) =
        inject_include_usage_lem J laws req.raw object in
      let again = inject_include_usage-parse J laws req.raw req parsed_raw in
      (rw (read_body, reads, again) refl, options, found, on)

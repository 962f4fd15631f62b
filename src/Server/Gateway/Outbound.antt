-- ===== src/Server/Gateway/Outbound.antt =====
-- The request that `handle_chat` of src/server/gateway.cpp has a backend's client send.
pub mod Tests
use mathlib.Core.Path.{subst}
use kvmux.Prelude.{
  ◌/◌, ◌≡◌, refl, sym, ap, ◌∙◌, ◌≢◌, inl, inr, Bool, none, some, [], if◌then◌else◌, Bool-cases,
  Bytes, codes,
}
use kvmux.Prelude.Result.{ok}
use kvmux.Config.{BackendConfig}
use kvmux.OpenAi.Json.{Json, Laws}
use kvmux.OpenAi.Request.{ChatCompletionRequest}
use kvmux.Upstream.Target.{Target, target, parse}
use kvmux.Upstream.Target.RoundTrip.{url, IsWithout, IsPath, parse-url}
use kvmux.Upstream.Usage.{inject_include_usage}
use kvmux.Upstream.Requests.{Outgoing, post, stream_request, unary_request}
use kvmux.Server.Gateway.{Backend}
use kvmux.Server.Gateway.Construct.{with_target, make_backend}
use kvmux.Server.Gateway.Serve.{request, read_body, upstream_text}
use kvmux.Server.Gateway.Serve.Resent.{upstream_text-read_body}

with_target-ok :
    (bc : BackendConfig) (t : Target) (x : Target × Backend)
    → with_target bc (target t) ≡ ok x
    → x.0 ≡ t
unfolding with_target
with_target-ok bc t x e = cc e

module _ (J : Json) where
  unfoldable pub outbound : Target → ChatCompletionRequest J → Outgoing
  outbound t req =
      if req.stream
      then stream_request t (upstream_text J req)
      else unary_request t (upstream_text J req)

  -- A POST of this body to the chat path at this host and port, which asks for an event stream or not.
  pub record IsChatPost (o : Outgoing) (host port body : Bytes) (stream : Bool) : Type 0 where
    pub host_is : o.host ≡ host
    pub port_is : o.port ≡ port
    pub posts : o.verb ≡ post
    pub path_is : o.path ≡ codes "/v1/chat/completions"
    pub json : o.content_type ≡ some (codes "application/json")
    pub streams : o.accept ≡ (if stream then some (codes "text/event-stream") else none)
    pub body_is : o.body ≡ body

  outbound-IsChatPost :
      (t : Target) (req : ChatCompletionRequest J)
      → IsChatPost (outbound t req) t.host t.port (upstream_text J req) req.stream
  unfolding outbound stream_request unary_request
  outbound-IsChatPost t req = elim (Bool-cases req.stream) [
    | inl e ↦ simp e (record {
      host_is = refl;
      port_is = refl;
      posts = refl;
      path_is = refl;
      json = refl;
      streams = refl;
      body_is = refl;
    })
    | inr e ↦ simp e (record {
      host_is = refl;
      port_is = refl;
      posts = refl;
      path_is = refl;
      json = refl;
      streams = refl;
      body_is = refl;
    })
  ]

  -- What a chat sends to a backend whose base URL names this host and port, with any path: a POST to the chat
  -- path there, which asks for an event stream if the client does. A backend that reads bodies as the
  -- gateway does accepts it, with the client's model, messages and `stream` flag, if the JSON library reads
  -- back the text that it wrote for that body.
  pub outbound-make_backend :
      (laws : Laws J) (bc : BackendConfig) (host port path : Bytes)
      → host ≢ []
      → port ≢ []
      → IsWithout b':' host
      → IsWithout b'/' host
      → IsWithout b'/' port
      → IsPath path
      → bc.base_url ≡ url host port path
      → (x : Target × Backend) → make_backend bc ≡ ok x
      → (text : Bytes) (req : ChatCompletionRequest J) → read_body J text ≡ request req
      → J.parse (J.dump (inject_include_usage J req.raw)) ≡ some (inject_include_usage J req.raw)
      → (body : Bytes) × (sent : ChatCompletionRequest J) × IsChatPost
          (outbound x.0 req)
          host
          port
          body
          req.stream
        × (read_body J body ≡ request sent)
        × (sent.model ≡ req.model)
        × (sent.messages ≡ req.messages)
        × (sent.stream ≡ req.stream)
  unfolding make_backend
  outbound-make_backend laws bc host port path h p no_colon no_slash port_no_slash is_path base x
        made text req accepted reads =
      let parsed =
        ap parse base ∙ parse-url host port path h p no_colon no_slash port_no_slash is_path in
      let at : x.0 ≡ record { host = host; port = port } =
        with_target-ok bc (record { host = host; port = port }) x
          (ap (with_target bc) (sym parsed) ∙ made) in
      let (again, options, found, on) = upstream_text-read_body J laws text req accepted reads in
      (
        upstream_text J req,
        record req { raw = inject_include_usage J req.raw },
        subst (λ t. IsChatPost (outbound t req) host port (upstream_text J req) req.stream) (sym at)
            (outbound-IsChatPost (record { host = host; port = port }) req),
        again,
        refl,
        refl,
        refl,
      )

-- ===== src/Server/Gateway/Serve.antt =====
-- `handle_chat` of src/server/gateway.cpp from the text of the request body on: what it parses, with which order the
-- configured policy walks, and the JSON text that it answers with.
pub mod Sent
pub mod Refusals
pub mod Resent
pub mod Tests
use kvmux.Prelude.{ℕ, Bool, none, some, List, [], Bytes}
use kvmux.Prelude.Double.{Double}
use kvmux.Prelude.Result.{Result, ok, err}
use kvmux.Config.{RoutingConfig}
use kvmux.Admission.Gate.{AdmitStatus}
use kvmux.OpenAi.Errors.{ErrorKind, status_code}
use kvmux.OpenAi.Json.{Json}
use kvmux.OpenAi.Bodies.{make_error, wrap_upstream_error, models_body}
use kvmux.OpenAi.Request.{RequestError, ChatCompletionRequest, parse}
use kvmux.Routing.{Candidate, RouteOrder}
use kvmux.Routing.RoundRobin.{RoundRobin}
use kvmux.Upstream.Usage.{inject_include_usage}
use kvmux.Server.Gateway.{Backend}
use kvmux.Server.Gateway.Attempt.{Render}
use kvmux.Server.Gateway.Walk.{Round}
use kvmux.Server.Gateway.Chat.{Parsed, bad_json, invalid, chat, Handled, handle_chat}
use kvmux.Server.Gateway.Policy.{order_candidates}

module _ (J : Json) where
  unfoldable pub render : Render
  render = record {
    error_json = λ kind message param. J.dump (make_error J kind message param);
    model_list = λ ids. J.dump (models_body J ids);
    wrapped = λ body status. J.dump (wrap_upstream_error J body status);
  }

  -- `RequestError::to_json`
  abbrev pub to_json : RequestError → Json.Value J
  to_json e = make_error J e.kind e.message e.param

  -- What comes of the body's text.
  pub data Body : Type 0 where
    not_json : Body
    refused : RequestError → Body
    request : ChatCompletionRequest J → Body

  abbrev pub checked : Result RequestError (ChatCompletionRequest J) → Body
  checked (ok req) = request req
  checked (err e) = refused e

  unfoldable pub read_body : Bytes → Body
  read_body text = elim (J.parse text) [ none ↦ not_json | some body ↦ checked (parse J body) ]

  -- What is sent to the backend.
  unfoldable pub upstream_text : ChatCompletionRequest J → Bytes
  upstream_text req = J.dump (inject_include_usage J req.raw)

  module _ (fp : Double) (xxh64 : Bytes → ℕ) (routing : RoutingConfig fp) (rr : RoundRobin) where
    -- The order that the policy gives; without a request none is asked for.
    abbrev pub route_of : Body → List Candidate → RouteOrder
    route_of (request req) cs = (order_candidates J fp xxh64 routing rr req cs).1
    route_of _ cs = record { order = []; spills = 0 }

    abbrev pub parsed_of : Body → Parsed
    parsed_of not_json = bad_json
    parsed_of (refused e) = invalid (status_code e.kind) (J.dump (to_json e))
    parsed_of (request req) = chat req.model req.stream

    unfoldable pub handle_text : Bool → (ℕ → Round) → AdmitStatus → Bytes → List Backend → Handled
    handle_text keep_alive rounds status text bs =
        let body = read_body text in
        handle_chat render keep_alive (route_of body) rounds status (parsed_of body) bs

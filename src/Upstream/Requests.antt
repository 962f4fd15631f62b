-- ===== src/Upstream/Requests.antt =====
-- The requests that `Client` of src/upstream/client.cpp writes, and where to. Connecting resolves the host and the port and
-- opens a connection for each request.
use kvmux.Prelude.{Option, none, some, [], Bytes, codes}
use kvmux.Upstream.Target.{Target}

pub data Verb : Type 0 where
  get post : Verb

pub record Outgoing : Type 0 where
  -- what `connect` resolves
  pub host : Bytes
  pub port : Bytes
  -- the request line, the header fields and the body
  pub verb : Verb
  pub path : Bytes
  pub host_field : Bytes
  pub content_type : Option Bytes
  pub accept : Option Bytes
  pub body : Bytes

-- `connect` and the request of `stream_chat`
unfoldable pub stream_request : Target → Bytes → Outgoing
stream_request t request_body = record {
  host = t.host;
  port = t.port;
  verb = post;
  path = codes "/v1/chat/completions";
  host_field = t.host;
  content_type = some (codes "application/json");
  accept = some (codes "text/event-stream");
  body = request_body;
}

-- those of `post_chat`
unfoldable pub unary_request : Target → Bytes → Outgoing
unary_request t request_body = record {
  host = t.host;
  port = t.port;
  verb = post;
  path = codes "/v1/chat/completions";
  host_field = t.host;
  content_type = some (codes "application/json");
  accept = none;
  body = request_body;
}

-- and those of `get`
unfoldable pub get_request : Target → Bytes → Outgoing
get_request t path = record {
  host = t.host;
  port = t.port;
  verb = get;
  path = path;
  host_field = t.host;
  content_type = none;
  accept = none;
  body = [];
}

-- ===== src/Server/Gateway/Attempt.antt =====
-- One dispatch of `handle_chat` in src/server/gateway.cpp, after the slot is taken: the non-streaming path
-- and the streaming path. What the JSON library renders is a parameter.
use kvmux.Prelude.{
  ℕ, ◌+◌, Bool, true, false, not, ◌||◌, Option, none, some, List, [], ◌∷◌, leb, if◌then◌else◌,
  Bytes, codes,
}
use kvmux.Health.Breaker.{CircuitBreaker, on_success, on_failure}
use kvmux.Upstream.Sse.{SseEvent, is_done}
use kvmux.Upstream.Client.{StreamResult, UnaryResult, Exchange, stream_chat}
use kvmux.OpenAi.Errors.{ErrorKind, upstream_failure, upstream_timeout}
use kvmux.Server.SseWriter.{SseWriter, new, begin, write_data, end}

-- What is rendered as JSON text: `openai::make_error(kind, message, param).dump()` and
-- `openai::wrap_upstream_error(...).dump()`.
pub record Render : Type 0 where
  pub error_json : ErrorKind → Bytes → Bytes → Bytes
  -- the body of `handle_models`, from the model ids
  pub model_list : List Bytes → Bytes
  pub wrapped : Bytes → ℕ → Bytes

-- What the client gets of a request.
pub data Reply : Type 0 where
  -- `write_json` with this status and body, and whether the connection is kept
  json_reply : ℕ → Bytes → Bool → Reply
  -- the SSE response as far as it was sent, and whether the connection is kept
  sse_reply : SseWriter → Bool → Reply
  -- an exception leaves the handler
  raised : SseWriter → Reply

-- What becomes of one attempt: the breaker, whether `inc_backend_failures` was called, and the reply, or
-- `none` for the `continue` that goes to the next backend.
pub record Ending : Type 0 where
  pub breaker : CircuitBreaker
  pub counted : Bool
  -- what `final_code` is set to, 0 where it is not set
  pub code : ℕ
  pub reply : Option Reply

-- The outcome of writes to the client's socket, one for each write; later ones succeed. A failure is not
-- taken off, so every write after it fails too.
abbrev pub first_write : List Bool → Bool
first_write [] = true
first_write (w ∷ ws) = w

abbrev pub later_writes : List Bool → List Bool
later_writes [] = []
later_writes (w ∷ ws) = ws

-- What the sink lambda captures.
pub record Sink : Type 0 where
  pub writer : SseWriter
  pub header_started : Bool
  pub downstream_dead : Bool
  pub first_frame_seen : Bool
  -- how often `observe_overhead` with `observe_ttft`, and `observe_itl`, were called
  pub ttft_count : ℕ
  pub itl_count : ℕ
  pub wire : List Bool

abbrev pub sink0 : Bool → List Bool → Sink
sink0 keep_alive wire = record {
  writer = new keep_alive;
  header_started = false;
  downstream_dead = false;
  first_frame_seen = false;
  ttft_count = 0;
  itl_count = 0;
  wire = wire;
}

abbrev pub die : Sink → Sink × Bool
die s = (record s { downstream_dead = true }, false)

-- `if (!header_started) { co_await writer.begin(); header_started = true; }`
unfoldable pub start_header : Sink → Option Sink
start_header s = if s.header_started then some s else elim (begin (first_write s.wire) s.writer) [
  | none ↦ none
  | some w ↦ some (record s { writer = w; header_started = true; wire = later_writes s.wire })
]

-- The latency observations.
abbrev pub observe_frame : Sink → SseEvent → Sink
observe_frame s ev =
    if not s.first_frame_seen
    then record s { first_frame_seen = true; ttft_count = s.ttft_count + 1 }
    else if not (is_done ev)
    then record s { itl_count = s.itl_count + 1 }
    else s

unfoldable pub forward : Sink → SseEvent → Sink × Bool
forward s ev = elim (write_data (first_write s.wire) s.writer ev.payload) [
  | none ↦ die s
  | some w ↦ (record s { writer = w; wire = later_writes s.wire }, true)
]

-- The sink lambda.
unfoldable pub frame_sink : Sink → SseEvent → Sink × Bool
unfolding start_header forward
frame_sink s ev =
    if s.downstream_dead
    then (s, false)
    else elim (start_header s) [ none ↦ die s | some s' ↦ forward (observe_frame s' ev) ev ]

module _ (js : Render) where
  -- The non-streaming path. `more` is `attempts < max_attempts && pos + 1 < order.size()`.
  unfoldable pub unary_attempt : CircuitBreaker → Bool → ℕ → Bool → Bool → UnaryResult → Ending
  unary_attempt b is_probe now more keep_alive ur =
      if not ur.connected
      then record { breaker = on_failure b is_probe now; counted = true; code = 0; reply = none }
      else if leb 500 ur.http_status
      then record {
        breaker = on_failure b is_probe now;
        counted = true;
        code = if more then 0 else ur.http_status;
        reply =
            if more
            then none
            else some (json_reply ur.http_status (js.wrapped ur.body ur.http_status) keep_alive);
      }
      else record {
        breaker = on_success b is_probe;
        counted = false;
        code = if leb 400 ur.http_status then ur.http_status else 200;
        reply = some (
            if leb 400 ur.http_status
            then json_reply ur.http_status (js.wrapped ur.body ur.http_status) keep_alive
            else json_reply 200 ur.body keep_alive);
      }

  -- The reply for a stream that failed before a byte was sent, when there is no retry.
  unfoldable pub zero_byte_reply : Bool → StreamResult → Reply
  zero_byte_reply keep_alive sr =
      if leb 400 sr.http_status
      then json_reply sr.http_status (js.wrapped sr.error_body sr.http_status) keep_alive
      else if sr.timed_out
      then json_reply 504 (js.error_json upstream_timeout (codes "upstream timed out") [])
          keep_alive
      else json_reply 502 (js.error_json upstream_failure (codes "upstream connection failed") [])
          keep_alive

  -- The status that is set with it.
  unfoldable pub zero_byte_code : StreamResult → ℕ
  zero_byte_code sr =
      if leb 400 sr.http_status then sr.http_status else if sr.timed_out then 504 else 502

  -- Two writes in a `try` block: a payload, and the end of the stream. `true` if neither threw.
  unfoldable pub write_and_end : SseWriter → List Bool → Bytes → SseWriter × Bool
  write_and_end w wire payload = elim (write_data (first_write wire) w payload) [
    | none ↦ (w, false)
    | some w' ↦ elim (end (first_write (later_writes wire)) w') [
      | none ↦ (w', false)
      | some w'' ↦ (w'', true)
    ]
  ]

  -- Connected, below 400, and no event: a stream with the sentinel alone. `begin` is outside the `try`.
  unfoldable pub empty_stream_reply : Bool → Sink → Reply
  unfolding write_and_end
  empty_stream_reply keep_alive s = elim (begin (first_write s.wire) s.writer) [
    | none ↦ raised s.writer
    | some w ↦
        let (w', works) = write_and_end w (later_writes s.wire) (codes "[DONE]") in
        sse_reply w' (if works then keep_alive else false)
  ]

  -- The status is set once `begin` has not thrown.
  unfoldable pub empty_stream_code : Sink → ℕ
  empty_stream_code s = elim (begin (first_write s.wire) s.writer) [ none ↦ 0 | some w ↦ 200 ]

  -- The message of a failure in mid-stream.
  abbrev pub mid_stream_error : StreamResult → Bytes
  mid_stream_error sr =
      if sr.timed_out
      then js.error_json upstream_timeout (codes "upstream timed out mid-stream") []
      else js.error_json upstream_failure (codes "upstream aborted mid-stream") []

  abbrev pub failed_early : StreamResult → Bool
  failed_early sr =
      leb 400 sr.http_status || not sr.connected || sr.timed_out || sr.upstream_aborted

  -- The streaming path after `stream_chat`.
  unfoldable pub stream_ending :
      CircuitBreaker → Bool → ℕ → Bool → Bool → Sink → StreamResult → Ending
  unfolding zero_byte_reply zero_byte_code empty_stream_code empty_stream_reply write_and_end
  stream_ending b is_probe now more keep_alive s sr =
      if not s.header_started
      then (if failed_early sr
          then record {
            breaker = on_failure b is_probe now;
            counted = true;
            code = if more then 0 else zero_byte_code sr;
            reply = if more then none else some (zero_byte_reply keep_alive sr);
          }
          else record {
            breaker = on_success b is_probe;
            counted = false;
            code = empty_stream_code s;
            reply = some (empty_stream_reply keep_alive s);
          })
      else if s.downstream_dead
      then record {
        breaker = b;
        counted = false;
        code = 200;
        reply = some (sse_reply s.writer false);
      }
      else if sr.upstream_aborted || sr.timed_out
      then record {
        breaker = on_failure b is_probe now;
        counted = true;
        code = 200;
        reply = some (sse_reply (write_and_end s.writer s.wire (mid_stream_error sr)).0 false);
      }
      else record {
        breaker = on_success b is_probe;
        counted = false;
        code = 200;
        reply = some (elim (end (first_write s.wire) s.writer) [
          | none ↦ sse_reply s.writer false
          | some w ↦ sse_reply w keep_alive
        ]);
      }

  unfoldable pub stream_attempt :
      CircuitBreaker → Bool → ℕ → Bool → Bool → List Bool → Exchange → Ending
  unfolding stream_ending frame_sink
  stream_attempt b is_probe now more keep_alive wire exchange =
      let (s, sr) = stream_chat frame_sink (sink0 keep_alive wire) exchange in
      stream_ending b is_probe now more keep_alive s sr

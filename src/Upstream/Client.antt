-- ===== src/Upstream/Client.antt =====
-- `Client::stream_chat` of src/upstream/client.hpp and client.cpp. The socket is the environment: what
-- connecting, the response header and each read come to is an argument. The sink is any function on a
-- state of its own.
pub mod Laws
pub mod Ends
use kvmux.Prelude.{
  ℕ, Bool, true, false, not, ◌&&◌, ◌||◌, List, [], ◌∷◌, ◌++◌, leb, if◌then◌else◌, Bytes,
}
use kvmux.Upstream.Target.{Target}
use kvmux.Upstream.Requests.{Outgoing, get_request}
use kvmux.Upstream.Sse.{SseEvent, SseParser, new, feed, flush, is_done}

pub record StreamResult : Type 0 where
  pub connected : Bool
  pub any_frame_forwarded : Bool
  pub http_status : ℕ
  pub error_body : Bytes
  pub upstream_aborted : Bool
  pub timed_out : Bool

pub record UnaryResult : Type 0 where
  pub connected : Bool
  pub http_status : ℕ
  pub body : Bytes
  pub timed_out : Bool

-- How a read ended, besides the bytes that it gave.
pub data ReadEnd : Type 0 where
  -- no error, or `need_buffer`: the loop goes on
  goes_on : ReadEnd
  -- `operation_aborted` or the stream's timeout
  expired : ReadEnd
  -- end of file or any other error
  failed : ReadEnd

pub record Read : Type 0 where
  pub bytes : Bytes
  pub ended_by : ReadEnd

-- What the call meets. The reads end where `parser.is_done()`.
pub data Exchange : Type 0 where
  -- resolving or connecting throws
  no_connection : Exchange
  -- connected, and an exception before the response header is there
  no_header : Exchange
  -- the header's status, and the reads of the body
  response : ℕ → List Read → Exchange

abbrev pub result0 : StreamResult
result0 = record {
  connected = false;
  any_frame_forwarded = false;
  http_status = 0;
  error_body = [];
  upstream_aborted = false;
  timed_out = false;
}

-- The error body of a status of 400 or more: every read up to one that fails.
unfoldable pub drain_error : List Read → Bytes
drain_error [] = []
drain_error (r ∷ rs) =
    let rest = drain_error rs in
    elim r.ended_by [ goes_on ↦ r.bytes ++ rest | expired ↦ r.bytes | failed ↦ r.bytes ]

module _ {ℓ} {S : Type ℓ} (sink : S → SseEvent → S × Bool) where
  -- The variables of the loop that the two lambdas share.
  pub record Loop : Type ℓ where
    pub sink_state : S
    pub sse : SseParser
    pub any_frame_forwarded : Bool
    pub sink_wants_stop : Bool
    pub saw_done : Bool
    pub timed_out : Bool

  -- `drain_pending`: the pending events up to the first that the sink refuses.
  unfoldable pub drain_pending : Loop → List SseEvent → Loop
  drain_pending l [] = l
  drain_pending l (ev ∷ evs) =
      let (s, keep) = sink l.sink_state ev in
      let l' = record l {
        sink_state = s;
        any_frame_forwarded = true;
        saw_done = l.saw_done || is_done ev;
      } in
      let rest = drain_pending l' evs in if keep then rest else record l' { sink_wants_stop = true }

  -- The bytes of one read: fed, and the events forwarded.
  unfoldable pub take_bytes : Loop → Bytes → Loop
  unfolding drain_pending
  take_bytes l [] = l
  take_bytes l (c ∷ cs) =
      let (sse, evs) = feed l.sse (c ∷ cs) in drain_pending (record l { sse = sse }) evs

  -- How the loop leaves a read or goes on to `rest`.
  unfoldable pub after_read : ReadEnd → Loop → Loop → Loop
  after_read goes_on l rest = rest
  after_read expired l rest = record l { timed_out = true }
  after_read failed l rest = l

  unfoldable pub read_loop : Loop → List Read → Loop
  unfolding take_bytes after_read
  read_loop l [] = l
  read_loop l (r ∷ rs) =
      let l' = take_bytes l r.bytes in
      let rest = read_loop l' rs in if l.sink_wants_stop then l else after_read r.ended_by l' rest

  abbrev pub loop0 : S → Loop
  loop0 s = record {
    sink_state = s;
    sse = new;
    any_frame_forwarded = false;
    sink_wants_stop = false;
    saw_done = false;
    timed_out = false;
  }

  -- The flush of a trailing event, unless the sink has stopped.
  unfoldable pub finish : Loop → Loop
  unfolding drain_pending
  finish l =
      if l.sink_wants_stop
      then l
      else (let (sse, evs, _) = flush l.sse in drain_pending (record l { sse = sse }) evs)

  -- The whole of the body of a response below 400.
  unfoldable pub stream_body : S → List Read → Loop
  unfolding finish read_loop
  stream_body s rs = finish (read_loop (loop0 s) rs)

  unfoldable pub stream_chat : S → Exchange → S × StreamResult
  unfolding drain_error stream_body
  stream_chat s no_connection = (s, result0)
  stream_chat s no_header = (s, record result0 { connected = true; upstream_aborted = true })
  stream_chat s (response status reads) =
      if leb 400 status
      then (
        s,
        record result0 { connected = true; http_status = status; error_body = drain_error reads },
      )
      else (let l = stream_body s reads in
          (
            l.sink_state,
            record {
              connected = true;
              any_frame_forwarded = l.any_frame_forwarded;
              http_status = status;
              error_body = [];
              upstream_aborted = not l.saw_done && not l.sink_wants_stop && not l.timed_out;
              timed_out = l.timed_out;
            },
          ))

-- `Client::post_chat` and `Client::get`: what is known of the exchange when it ends, by an answer or an
-- exception. Nothing sets `timed_out`.
pub data UnaryExchange : Type 0 where
  unconnected : UnaryExchange
  unanswered : UnaryExchange
  answered : ℕ → Bytes → UnaryExchange

unfoldable pub post_chat : UnaryExchange → UnaryResult
post_chat unconnected = record { connected = false; http_status = 0; body = []; timed_out = false }
post_chat unanswered = record { connected = true; http_status = 0; body = []; timed_out = false }
post_chat (answered status body) = record {
  connected = true;
  http_status = status;
  body = body;
  timed_out = false;
}

-- `Client::get`, for the probes, reports them alike. `network` is what becomes of a request that is sent;
-- the budget is the network's.
unfoldable pub get : Target → (Outgoing → UnaryExchange) → Bytes → UnaryResult
unfolding post_chat
get target network path = post_chat (network (get_request target path))

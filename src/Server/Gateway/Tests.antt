-- ===== src/Server/Gateway/Tests.antt =====
-- Two backends and concrete exchanges. JSON texts are stood in for by the message itself.
use kvmux.Prelude.{
  zero, ◌≤◌, ◌≡◌, refl, ◌≢◌, true, false, none, List, [], ◌∷◌, map, length, Bytes, codes, equal, ℕ,
}
use kvmux.Health.Breaker.{CircuitBreaker, allow_request, half_open, on_success, on_failure}
use kvmux.Health.Breaker as Breaker
use kvmux.Health.Checker.{healthy}
use kvmux.Upstream.Sse.{is_done, feed, flush}
use kvmux.Upstream.Client.{
  StreamResult, result0, Exchange, response, no_connection, goes_on, failed, answered, stream_chat,
}
use kvmux.Admission.Limiter.{try_acquire, release}
use kvmux.Admission.Gate.{admitted, queue_full}
use kvmux.Routing.{Candidate, RouteOrder}
use kvmux.Server.SseWriter.{begin, write_data, end, new}
use kvmux.Server.Gateway.{Backend}
use kvmux.Server.Gateway.Attempt.{
  Reply, Render, json_reply, sink0, frame_sink, stream_attempt, stream_ending, Sink,
}
use kvmux.Server.Gateway.Walk.{
  visit, admit, dispatch, conclude, attempt, record_spills, map_from, Round, Request, walk,
}
use kvmux.Server.Gateway.Chat.{walk0}
use kvmux.Server.Gateway.Dispatches.{IsSubseq, walk-IsSubseq}
use kvmux.Server.Gateway.Failover.{stream_attempt-none}
use kvmux.Server.Gateway.Endings.{IsWhole, stream_attempt-IsWhole}

abbrev pub plain : Render
plain = record {
  model_list = λ ids. [];
  error_json = λ kind message param. message;
  wrapped = λ body status. body;
}

abbrev pub backend : Bytes → Backend
backend name = record {
  name = name;
  models = codes "m" ∷ [];
  health = healthy;
  breaker = Breaker.new 3 10;
  limiter = record { max_in_flight = 2; active = 0 };
  forced_health = none;
}

abbrev pub pair : List Backend
pair = backend (codes "a") ∷ backend (codes "b") ∷ []

abbrev broken : Exchange
broken = response 200 (record { bytes = codes "data: x\n\n"; ended_by = failed } ∷ [])

abbrev whole_stream : Exchange
whole_stream =
    response 200 (record { bytes = codes "data: x\n\ndata: [DONE]\n\n"; ended_by = goes_on } ∷ [])

abbrev pub round : Exchange → Round
round exchange = record {
  asked = 1;
  aborted = 1;
  reported = 2;
  others = λ i b. b;
  unary = answered 200 (codes "hi");
  exchange = exchange;
  wire = [];
}

-- The first backend cannot be reached; the second answers.
abbrev pub rounds : ℕ → Round
rounds zero = round no_connection
rounds _ = round whole_stream

abbrev pub streaming : Request
streaming = record { stream = true; keep_alive = true; spills = 0 }

-- It fails over: both are tried, and the stream of the second is sent.
walk_fails_over :
    (walk plain streaming rounds 0 (0 ∷ 1 ∷ []) (walk0 pair)).0.dispatched ≡ 0 ∷ 1 ∷ []
unfolding walk visit admit dispatch conclude attempt record_spills map_from allow_request
    try_acquire release stream_attempt stream_ending stream_chat feed flush equal frame_sink
    on_failure on_success begin write_data end is_done
walk_fails_over = refl

walk-IsSubseq_example :
    IsSubseq (walk plain streaming rounds 0 (1 ∷ 0 ∷ []) (walk0 pair)).0.dispatched (1 ∷ 0 ∷ [])
    × (length (walk plain streaming rounds 0 (1 ∷ 0 ∷ []) (walk0 pair)).0.dispatched ≤ 2)
walk-IsSubseq_example = walk-IsSubseq plain streaming rounds (1 ∷ 0 ∷ []) pair

stream_attempt-none_example :
    ((stream_chat frame_sink (sink0 true []) no_connection).0.writer ≡ new true)
    × (true ≡ true)
    × ((stream_attempt plain (Breaker.new 3 10) false 2 true true [] no_connection).breaker
        ≡ on_failure (Breaker.new 3 10) false 2)
    × ((stream_attempt plain (Breaker.new 3 10) false 2 true true [] no_connection).counted ≡ true)
unfolding stream_attempt stream_chat
stream_attempt-none_example =
    stream_attempt-none plain (Breaker.new 3 10) false 2 true true [] no_connection refl

stream_attempt-IsWhole_example :
    IsWhole plain
      (Breaker.new 3 10)
      false
      2
      true
      true
      (stream_attempt plain (Breaker.new 3 10) false 2 true true [] broken)
      (stream_chat frame_sink (sink0 true []) broken).0
      broken
unfolding stream_chat frame_sink feed equal begin write_data flush
stream_attempt-IsWhole_example =
    stream_attempt-IsWhole plain (Breaker.new 3 10) false 2 true true broken refl

abbrev stuck : CircuitBreaker
stuck = record (Breaker.new 3 10) { state = half_open }

abbrev sr : StreamResult
sr = record result0 { connected = true; any_frame_forwarded = true; http_status = 200 }

abbrev gone : Sink
gone = record (sink0 true []) { header_started = true; downstream_dead = true }

abbrev in_order : List Candidate → RouteOrder
in_order cs = record { order = map (λ c. c.backend_index) cs; spills = 0 }

queue_full-turned_away : queue_full ≢ admitted
queue_full-turned_away e = cc

abbrev ran : ℕ × Reply
ran = (0, json_reply 200 [] true)

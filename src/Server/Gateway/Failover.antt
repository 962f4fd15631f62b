-- ===== src/Server/Gateway/Failover.antt =====
-- When the streaming path of `handle_chat` goes on to another backend, and how the two paths differ.
use kvmux.Prelude.{
  ◌≤◌, ◌<◌, leb, if◌then◌else◌, Bytes, codes, ◌≡◌, refl, ap, ◌⊎◌, inl, inr, Bool, true, false, not,
  none, some, List, [], ◌∷◌, ◌++◌, arith, Bool-cases, either, ℕ,
}
use kvmux.Health.Breaker.{on_success, CircuitBreaker, on_failure}
use kvmux.OpenAi.Errors.{upstream_failure}
use kvmux.Upstream.Sse.{SseEvent, is_done}
use kvmux.Upstream.Client.{
  Read, response, no_header, answered, unanswered, post_chat, StreamResult, Exchange, stream_chat,
}
use kvmux.Upstream.Client.Laws.{stream_chat-keeps}
use kvmux.Server.SseWriter.{Piece, header, chunk, new, begin, frame, write_data}
use kvmux.Server.Gateway.Attempt.{
  zero_byte_code, json_reply, stream_attempt, unary_attempt, zero_byte_reply, later_writes,
  first_write, observe_frame, Render, Sink, sink0, start_header, forward, frame_sink, stream_ending,
}

-- The header is the first piece sent, and the stream has not ended.
abbrev pub IsStarted : Bool → Sink → Type 0
IsStarted keep_alive s =
    (s.header_started ≡ true)
    × (s.writer.ended ≡ false)
    × (rest : List Piece) × (s.writer.sent ≡ header keep_alive ∷ rest)

-- What `header_started` says of the bytes sent.
abbrev pub IsHonest : Bool → Sink → Type 0
IsHonest keep_alive s =
    ((s.header_started ≡ false) × (s.writer ≡ new keep_alive)) ⊎ IsStarted keep_alive s

start_header_cases :
    (keep_alive : Bool) (s : Sink)
    → IsHonest keep_alive s
    → (start_header s ≡ none) ⊎ ((s' : Sink) × (start_header s ≡ some s') × IsStarted keep_alive s')
unfolding start_header begin
start_header_cases keep_alive s (inl (off, fresh)) = elim (Bool-cases (first_write s.wire)) [
  | inl e ↦ inr (
    record s {
      writer = record (new keep_alive) { header_sent = true; sent = header keep_alive ∷ [] };
      header_started = true;
      wire = later_writes s.wire;
    },
    rw (start_header, off, fresh, begin, e) refl,
    (refl, refl, [], refl),
  )
  | inr e ↦ inl (rw (start_header, off, fresh, begin, e) refl)
]
start_header_cases keep_alive s (inr started) = inr (s, rw (start_header, started.0) refl, started)

pub observe-IsStarted :
    (keep_alive : Bool) (s : Sink) (ev : SseEvent)
    → IsStarted keep_alive s
    → IsStarted keep_alive (observe_frame s ev)
observe-IsStarted keep_alive s ev h =
    either (IsStarted keep_alive) (not s.first_frame_seen) h
      (either (IsStarted keep_alive) (not (is_done ev)) h h)

pub forward-IsStarted :
    (keep_alive : Bool) (s : Sink) (ev : SseEvent)
    → IsStarted keep_alive s
    → IsStarted keep_alive (forward s ev).0
unfolding forward write_data
forward-IsStarted keep_alive s ev (on, going, rest, e) = elim (Bool-cases (first_write s.wire)) [
  | inl w ↦
      rw (forward, write_data, w)
        (
          on,
          going,
          rest ++ chunk (frame ev.payload) ∷ [],
          ap (λ x. x ++ chunk (frame ev.payload) ∷ []) e,
        )
  | inr w ↦ rw (forward, write_data, w) (on, going, rest, e)
]

frame_sink-IsHonest :
    (keep_alive : Bool) (s : Sink) (ev : SseEvent)
    → IsHonest keep_alive s
    → IsHonest keep_alive (frame_sink s ev).0
unfolding frame_sink
frame_sink-IsHonest keep_alive s ev h =
    either (λ (x : Sink × Bool). IsHonest keep_alive x.0) s.downstream_dead h
      (elim (start_header_cases keep_alive s h) [
        | inl e ↦ rw e h
        | inr (s', e, started) ↦ rw e (
            inr (
              forward-IsStarted keep_alive (observe_frame s' ev) ev
                (observe-IsStarted keep_alive s' ev started)))
      ])

stream_chat-IsHonest :
    (keep_alive : Bool) (wire : List Bool) (exchange : Exchange)
    → IsHonest keep_alive (stream_chat frame_sink (sink0 keep_alive wire) exchange).0
stream_chat-IsHonest keep_alive wire exchange =
    stream_chat-keeps frame_sink (IsHonest keep_alive) (frame_sink-IsHonest keep_alive)
      (sink0 keep_alive wire) exchange (inl (refl, refl))

module _ (js : Render) (b : CircuitBreaker) (is_probe : Bool) (now : ℕ)
    (more keep_alive : Bool) where
  stream_ending-none :
      (s : Sink) (sr : StreamResult)
      → (stream_ending js b is_probe now more keep_alive s sr).reply ≡ none
      → (s.header_started ≡ false)
        × (more ≡ true)
        × ((stream_ending js b is_probe now more keep_alive s sr).breaker
            ≡ on_failure b is_probe now)
        × ((stream_ending js b is_probe now more keep_alive s sr).counted ≡ true)
  unfolding stream_ending
  stream_ending-none s sr h = ground arith

  -- A streamed attempt is given up for another backend only where there is one left to try and nothing, no
  -- header and no frame, has been sent to the client; the failure is then reported to the breaker.
  pub stream_attempt-none :
      (wire : List Bool) (exchange : Exchange)
      → (stream_attempt js b is_probe now more keep_alive wire exchange).reply ≡ none
      → ((stream_chat frame_sink (sink0 keep_alive wire) exchange).0.writer ≡ new keep_alive)
        × (more ≡ true)
        × ((stream_attempt js b is_probe now more keep_alive wire exchange).breaker
            ≡ on_failure b is_probe now)
        × ((stream_attempt js b is_probe now more keep_alive wire exchange).counted ≡ true)
  unfolding stream_attempt
  stream_attempt-none wire exchange h =
      let (s, sr) = stream_chat frame_sink (sink0 keep_alive wire) exchange in
      let (off, left, failed, counted) = stream_ending-none s sr h in
      elim (stream_chat-IsHonest keep_alive wire exchange) [
        | inl (_, fresh) ↦ (fresh, left, failed, counted)
        | inr (on, _, _, _) ↦ cc
      ]

  -- On a status from 400 to 499 the two paths disagree on the backend: without streaming it counts as a
  -- success and the status is passed on; with streaming it counts as a failure.
  pub client_error_paths :
      (status : ℕ) (body : Bytes) (reads : List Read) (wire : List Bool)
      → 400 ≤ status
      → status < 500
      → ((unary_attempt js b is_probe now more keep_alive
            (post_chat (answered status body))).breaker
          ≡ on_success b is_probe)
        × ((unary_attempt js b is_probe now more keep_alive
              (post_chat (answered status body))).reply
            ≡ some (json_reply status (js.wrapped body status) keep_alive))
        × ((stream_attempt js b is_probe now more keep_alive wire (response status reads)).breaker
            ≡ on_failure b is_probe now)
        × ((stream_attempt js b is_probe now more keep_alive wire (response status reads)).counted
            ≡ true)
  unfolding stream_attempt stream_ending unary_attempt post_chat stream_chat zero_byte_reply
  client_error_paths status body reads wire low high =
      let hi : leb 400 status ≡ true = ground arith in
      let lo : leb 500 status ≡ false = ground arith in
      (
        rw (unary_attempt, post_chat, lo) refl,
        rw (unary_attempt, post_chat, lo, hi) refl,
        rw (stream_chat, hi) (rw hi refl),
        rw (stream_chat, hi) (rw hi refl),
      )

  -- An upstream that takes the connection and gives no answer: without streaming it counts as a success
  -- and the client gets 200 with an empty body; with streaming it counts as a failure.
  pub no_answer_paths :
      (wire : List Bool)
      → (unary_attempt js b is_probe now more keep_alive (post_chat unanswered) ≡ record {
        breaker = on_success b is_probe;
        counted = false;
        code = 200;
        reply = some (json_reply 200 [] keep_alive);
      })
        × (stream_attempt js b is_probe now more keep_alive wire no_header ≡ record {
          breaker = on_failure b is_probe now;
          counted = true;
          code = if more then 0 else 502;
          reply =
              if more
              then none
              else some (
                  json_reply 502
                    (js.error_json upstream_failure (codes "upstream connection failed") [])
                    keep_alive);
        })
  unfolding stream_attempt stream_ending unary_attempt post_chat stream_chat zero_byte_reply
      zero_byte_code
  no_answer_paths wire = (refl, refl)

-- ===== src/Server/Gateway/Endings.antt =====
-- How a streamed reply of `handle_chat` ends once bytes have gone out.
use kvmux.Prelude.{
  ◌≡◌, refl, sym, ap, leb, codes, if◌then◌else◌, ◌∙◌, ◌⊎◌, inl, inr, Bool, true, false, ◌||◌, some,
  List, [], ◌∷◌, ◌++◌, Bool-cases, length, replicate, Bytes, ℕ,
}
use mathlib.Core.List.{append_assoc}
use kvmux.Health.Breaker.{CircuitBreaker, half_open, on_success, on_failure}
use kvmux.Health.Breaker.Probes.{decisions, denied, decisions-half_open}
use kvmux.Upstream.Client.{
  StreamResult, Read, Exchange, no_connection, no_header, response, stream_chat,
}
use kvmux.Upstream.Client.Ends.{runs_out, breaks_off, stream_chat-ends}
use kvmux.OpenAi.Errors.{upstream_timeout, upstream_failure}
use kvmux.Upstream.Client.Laws.{stream_chat-keeps}
use kvmux.Server.SseWriter.{SseWriter, Piece, chunk, last_chunk, frame, write_data, end}
use kvmux.Server.Gateway.Attempt.{
  first_write, Render, sse_reply, Ending, Sink, sink0, frame_sink, write_and_end, mid_stream_error,
  stream_ending, stream_attempt,
}
use kvmux.Server.Gateway.Failover.{IsStarted}
use kvmux.Server.Gateway.Alive.{IsAlive, frame_sink-IsAlive, frame_sink-takes}

module _ (js : Render) (b : CircuitBreaker) (is_probe : Bool) (now : ℕ)
    (more keep_alive : Bool) where
  -- How an attempt ends after what the sink and the client have left: the breaker, the pieces sent, and
  -- whether the connection is kept.
  abbrev pub EndsWith : Ending → CircuitBreaker → List Piece → Bool → Type 0
  EndsWith e breaker pieces keep =
      (e.breaker ≡ breaker)
      × (w : SseWriter) × (e.reply ≡ some (sse_reply w keep))
      × (w.sent ≡ pieces)

  abbrev pub failed_midway : StreamResult → Bool
  failed_midway sr = sr.upstream_aborted || sr.timed_out

  abbrev pub EndsWhole : Ending → Sink → StreamResult → Type 0
  EndsWhole e s sr =
      ((failed_midway sr ≡ true)
        × EndsWith e (on_failure b is_probe now)
            (s.writer.sent ++ (chunk (frame (mid_stream_error js sr)) ∷ last_chunk ∷ [])) false)
      ⊎ ((failed_midway sr ≡ false)
          × EndsWith e (on_success b is_probe) (s.writer.sent ++ (last_chunk ∷ [])) keep_alive)

  write_and_end-sent :
      (w : SseWriter) (payload : Bytes)
      → w.ended ≡ false
      → write_and_end js w [] payload ≡ (
        record w {
          sent = (w.sent ++ (chunk (frame payload) ∷ [])) ++ (last_chunk ∷ []);
          ended = true;
        },
        true,
      )
  unfolding write_and_end write_data end
  write_and_end-sent w payload going = rw going refl

  end-sent :
      (w : SseWriter)
      → w.ended ≡ false
      → end true w ≡ some (record w { sent = w.sent ++ (last_chunk ∷ []); ended = true })
  unfolding end
  end-sent w going = rw going refl

  stream_ending-EndsWhole :
      (s : Sink) (sr : StreamResult)
      → s.wire ≡ []
      → s.downstream_dead ≡ false
      → IsStarted keep_alive s
      → EndsWhole (stream_ending js b is_probe now more keep_alive s sr) s sr
  unfolding stream_ending write_and_end write_data end
  stream_ending-EndsWhole s sr wire up (on, going, rest, e) =
      let works : first_write s.wire ≡ true = rw wire refl in
      elim (Bool-cases (failed_midway sr)) [
        | inl f ↦ inl (
          f,
          (
            rw (stream_ending, on, up, f) refl,
            record s.writer {
              sent =
                  (s.writer.sent ++ (chunk (frame (mid_stream_error js sr)) ∷ []))
                  ++ (last_chunk ∷ []);
              ended = true;
            },
            rw (stream_ending, on, up, f)
                (ap
                    (λ ws.
                      some
                        (sse_reply (write_and_end js s.writer ws (mid_stream_error js sr)).0 false))
                    wire
                  ∙ ap (λ (x : SseWriter × Bool). some (sse_reply x.0 false))
                      (write_and_end-sent s.writer (mid_stream_error js sr) going)),
            append_assoc s.writer.sent (chunk (frame (mid_stream_error js sr)) ∷ [])
                (last_chunk ∷ []),
          ),
        )
        | inr f ↦ inr (
          f,
          (
            rw (stream_ending, on, up, f) refl,
            record s.writer { sent = s.writer.sent ++ (last_chunk ∷ []); ended = true },
            rw (stream_ending, on, up, f, works, end-sent s.writer going) refl,
            refl,
          ),
        )
      ]

  -- What is sent last if the upstream broke off after these reads.
  abbrev pub broken_off : List Read → Bytes
  broken_off reads =
      if runs_out reads
      then js.error_json upstream_timeout (codes "upstream timed out mid-stream") []
      else js.error_json upstream_failure (codes "upstream aborted mid-stream") []

  -- The same, from the exchange.
  abbrev pub IsWhole : Ending → Sink → Exchange → Type 0
  IsWhole e s exchange =
      (status : ℕ) × (reads : List Read) × (exchange ≡ response status reads)
      × (((breaks_off reads ≡ true)
            × EndsWith e (on_failure b is_probe now)
                (s.writer.sent ++ (chunk (frame (broken_off reads)) ∷ last_chunk ∷ [])) false)
          ⊎ ((breaks_off reads ≡ false)
              × EndsWith e (on_success b is_probe) (s.writer.sent ++ (last_chunk ∷ [])) keep_alive))

  EndsWhole-IsWhole :
      (e : Ending) (s : Sink) (sr : StreamResult) (status : ℕ) (reads : List Read)
      → sr.timed_out ≡ runs_out reads
      → failed_midway sr ≡ breaks_off reads
      → EndsWhole e s sr
      → IsWhole e s (response status reads)
  EndsWhole-IsWhole e s sr status reads timed fails (inl (f, ends)) =
      (status, reads, refl, inl (sym fails ∙ f, rw⁻¹ timed ends))
  EndsWhole-IsWhole e s sr status reads timed fails (inr (f, ends)) =
      (status, reads, refl, inr (sym fails ∙ f, ends))

  started-EndsWhole :
      (exchange : Exchange)
      → (stream_chat frame_sink (sink0 keep_alive []) exchange).0.header_started ≡ true
      → EndsWhole
          (stream_attempt js b is_probe now more keep_alive [] exchange)
          (stream_chat frame_sink (sink0 keep_alive []) exchange).0
          (stream_chat frame_sink (sink0 keep_alive []) exchange).1
  unfolding stream_attempt
  started-EndsWhole exchange on =
      let (s, sr) = stream_chat frame_sink (sink0 keep_alive []) exchange in
      let (wire, up, state) =
        stream_chat-keeps frame_sink (IsAlive keep_alive) (frame_sink-IsAlive keep_alive)
          (sink0 keep_alive []) exchange (refl, refl, inl (refl, refl)) in
      elim state [ inl (off, _) ↦ cc | inr started ↦ stream_ending-EndsWhole s sr wire up started ]

  -- A stream of which a part has gone out to a client that takes every write is never cut off silently. If a
  -- read of the upstream's body expired, or the body ended without the sentinel event, then after what was
  -- sent an error frame that says which of the two and the last chunk follow, the connection is closed and
  -- the breaker is told of a failure. If not, the last chunk follows and the breaker is told of a success.
  pub stream_attempt-IsWhole :
      (exchange : Exchange)
      → (stream_chat frame_sink (sink0 keep_alive []) exchange).0.header_started ≡ true
      → IsWhole
          (stream_attempt js b is_probe now more keep_alive [] exchange)
          (stream_chat frame_sink (sink0 keep_alive []) exchange).0
          exchange
  unfolding stream_chat
  stream_attempt-IsWhole no_connection on = cc
  stream_attempt-IsWhole no_header on = cc
  stream_attempt-IsWhole (response status reads) on = elim (Bool-cases (leb 400 status)) [
    | inl refused ↦ cc (rw refused at on)
    | inr below ↦
        let (timed, fails) =
          stream_chat-ends frame_sink (IsAlive keep_alive) (frame_sink-takes keep_alive)
            (sink0 keep_alive []) status reads below (refl, refl, inl (refl, refl)) in
        EndsWhole-IsWhole
          (stream_attempt js b is_probe now more keep_alive [] (response status reads))
          (stream_chat frame_sink (sink0 keep_alive []) (response status reads)).0
          (stream_chat frame_sink (sink0 keep_alive []) (response status reads)).1 status reads
          timed fails (started-EndsWhole (response status reads) on)
  ]

-- A probe whose client goes away in mid-stream is never resolved: the breaker stays half-open, and every
-- later caller is denied, at whatever times they ask.
pub probe_lost :
    (js : Render) (b : CircuitBreaker) (now : ℕ) (more keep_alive : Bool) (s : Sink)
    (sr : StreamResult) (ts : List ℕ)
    → b.state ≡ half_open
    → s.header_started ≡ true
    → s.downstream_dead ≡ true
    → decisions (stream_ending js b true now more keep_alive s sr).breaker ts
      ≡ replicate (length ts) denied
unfolding stream_ending
probe_lost js b now more keep_alive s sr ts half on dead =
    rw (on, dead) (decisions-half_open b ts half)

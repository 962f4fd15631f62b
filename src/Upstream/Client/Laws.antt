-- ===== src/Upstream/Client/Laws.antt =====
-- `stream_chat` seen from the sink.
use kvmux.Prelude.{either, inl, inr, Bool, true, ◌||◌, List, [], ◌∷◌, leb, Bool-cases, Bytes}
use kvmux.Upstream.Sse.{SseEvent, feed, flush, is_done}
use kvmux.Upstream.Client.{
  StreamResult, after_read, StreamResult, ReadEnd, goes_on, expired, failed, Read, Exchange,
  no_connection, no_header, response, Loop, drain_pending, take_bytes, read_loop, loop0, finish,
  stream_chat,
}

module _ {ℓ κ} {S : Type ℓ} (sink : S → SseEvent → S × Bool) (P : S → Type κ)
    (keep : (s : S) (ev : SseEvent) → P s → P (sink s ev).0) where
  drain-keeps :
      (evs : List SseEvent) (l : Loop sink)
      → P l.sink_state
      → P (drain_pending sink l evs).sink_state
  unfolding drain_pending
  drain-keeps [] l p = p
  drain-keeps (ev ∷ evs) l p = elim (Bool-cases (sink l.sink_state ev).1) [
    | inl e ↦ rw e (
        drain-keeps evs
          (record l {
            sink_state = (sink l.sink_state ev).0;
            any_frame_forwarded = true;
            saw_done = l.saw_done || is_done ev;
          })
          (keep l.sink_state ev p))
    | inr e ↦ rw e (keep l.sink_state ev p)
  ]

  take-keeps : (l : Loop sink) (bs : Bytes) → P l.sink_state → P (take_bytes sink l bs).sink_state
  unfolding take_bytes
  take-keeps l [] p = p
  take-keeps l (c ∷ cs) p =
      drain-keeps (feed l.sse (c ∷ cs)).1 (record l { sse = (feed l.sse (c ∷ cs)).0 }) p

  after_read-keeps :
      (e : ReadEnd) (l rest : Loop sink)
      → P l.sink_state
      → P rest.sink_state
      → P (after_read sink e l rest).sink_state
  unfolding after_read
  after_read-keeps goes_on l rest p q = q
  after_read-keeps expired l rest p q = p
  after_read-keeps failed l rest p q = p

  read-keeps :
      (l : Loop sink) (rs : List Read) → P l.sink_state → P (read_loop sink l rs).sink_state
  unfolding read_loop
  read-keeps l [] p = p
  read-keeps l (r ∷ rs) p =
      let p' = take-keeps l r.bytes p in
      let q = read-keeps (take_bytes sink l r.bytes) rs p' in
      either (λ (x : Loop sink). P x.sink_state) l.sink_wants_stop p
        (after_read-keeps r.ended_by (take_bytes sink l r.bytes)
          (read_loop sink (take_bytes sink l r.bytes) rs) p' q)

  finish-keeps : (l : Loop sink) → P l.sink_state → P (finish sink l).sink_state
  unfolding finish
  finish-keeps l p =
      either (λ (x : Loop sink). P x.sink_state) l.sink_wants_stop p
        (drain-keeps (flush l.sse).1 (record l { sse = (flush l.sse).0 }) p)

  -- What the sink keeps, a streamed exchange keeps.
  pub stream_chat-keeps : (s : S) (ex : Exchange) → P s → P (stream_chat sink s ex).0
  unfolding stream_chat
  stream_chat-keeps s no_connection p = p
  stream_chat-keeps s no_header p = p
  stream_chat-keeps s (response status rs) p =
      either (λ (x : S × StreamResult). P x.0) (leb 400 status) p
        (finish-keeps (read_loop sink (loop0 sink s) rs) (read-keeps (loop0 sink s) rs p))

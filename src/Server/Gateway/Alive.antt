-- ===== src/Server/Gateway/Alive.antt =====
-- What holds of the sink of `handle_chat` while the client takes every write.
use kvmux.Prelude.{◌≡◌, refl, ◌⊎◌, inl, inr, Bool, true, false, not, some, [], ◌∷◌, either}
use kvmux.Upstream.Sse.{SseEvent, is_done}
use kvmux.Server.SseWriter.{header, new, begin, write_data}
use kvmux.Server.Gateway.Attempt.{
  first_write, later_writes, later_writes, Sink, start_header, forward, frame_sink, observe_frame,
}
use kvmux.Server.Gateway.Failover.{IsStarted, observe-IsStarted, forward-IsStarted}

-- No write has failed and none will, and what was sent is as `header_started` says.
abbrev pub IsAlive : Bool → Sink → Type 0
IsAlive keep_alive s =
    (s.wire ≡ [])
    × (s.downstream_dead ≡ false)
    × (((s.header_started ≡ false) × (s.writer ≡ new keep_alive)) ⊎ IsStarted keep_alive s)

start-IsAlive :
    (keep_alive : Bool) (s : Sink)
    → IsAlive keep_alive s
    → (s' : Sink) × (start_header s ≡ some s')
      × (s'.wire ≡ [])
      × (s'.downstream_dead ≡ false)
      × IsStarted keep_alive s'
unfolding start_header begin
start-IsAlive keep_alive s (w, d, inl (off, fresh)) =
    let works : first_write s.wire ≡ true = rw w refl in
    (
      record s {
        writer = record (new keep_alive) { header_sent = true; sent = header keep_alive ∷ [] };
        header_started = true;
        wire = later_writes s.wire;
      },
      rw (start_header, off, fresh, begin, works) refl,
      rw w refl,
      d,
      (refl, refl, [], refl),
    )
start-IsAlive keep_alive s (w, d, inr started) =
    (s, rw (start_header, started.0) refl, w, d, started)

sent-IsAlive :
    (keep_alive : Bool) (s : Sink) (ev : SseEvent)
    → s.wire ≡ []
    → s.downstream_dead ≡ false
    → IsStarted keep_alive s
    → IsAlive keep_alive (forward s ev).0
unfolding forward write_data
sent-IsAlive keep_alive s ev w d started =
    let works : first_write s.wire ≡ true = rw w refl in
    let later : later_writes s.wire ≡ [] = rw w refl in
    (
      rw (forward, write_data, works) later,
      rw (forward, write_data, works) d,
      inr (forward-IsStarted keep_alive s ev started),
    )

pub frame_sink-IsAlive :
    (keep_alive : Bool) (s : Sink) (ev : SseEvent)
    → IsAlive keep_alive s
    → IsAlive keep_alive (frame_sink s ev).0
unfolding frame_sink
frame_sink-IsAlive keep_alive s ev h =
    let (s', e, w, d, started) = start-IsAlive keep_alive s h in
    either (λ (x : Sink × Bool). IsAlive keep_alive x.0) s.downstream_dead h
      (rw e (
        sent-IsAlive keep_alive (observe_frame s' ev) ev
          (either (λ (x : Sink). x.wire ≡ []) (not s'.first_frame_seen) w
            (either (λ (x : Sink). x.wire ≡ []) (not (is_done ev)) w w))
          (either (λ (x : Sink). x.downstream_dead ≡ false) (not s'.first_frame_seen) d
            (either (λ (x : Sink). x.downstream_dead ≡ false) (not (is_done ev)) d d))
          (observe-IsStarted keep_alive s' ev started)))

forward-takes : (s : Sink) (ev : SseEvent) → s.wire ≡ [] → (forward s ev).1 ≡ true
unfolding forward write_data
forward-takes s ev w =
    let works : first_write s.wire ≡ true = rw w refl in rw (forward, write_data, works) refl

started-takes :
    (s s' : Sink) (ev : SseEvent)
    → start_header s ≡ some s'
    → s.downstream_dead ≡ false
    → s'.wire ≡ []
    → (frame_sink s ev).1 ≡ true
unfolding frame_sink
started-takes s s' ev e up w = rw e (
    simp up (
      forward-takes (observe_frame s' ev) ev (
        either (λ (x : Sink). x.wire ≡ []) (not s'.first_frame_seen) w
          (either (λ (x : Sink). x.wire ≡ []) (not (is_done ev)) w w))))

-- It takes every event.
pub frame_sink-takes :
    (keep_alive : Bool) (s : Sink) (ev : SseEvent)
    → IsAlive keep_alive s
    → IsAlive keep_alive (frame_sink s ev).0 × ((frame_sink s ev).1 ≡ true)
frame_sink-takes keep_alive s ev h =
    let (s', e, w, d, started) = start-IsAlive keep_alive s h in
    let (_, up, _) = h in (frame_sink-IsAlive keep_alive s ev h, started-takes s s' ev e up w)

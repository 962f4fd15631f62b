-- ===== src/Server/Gateway/Timed.antt =====
-- When the sink of `handle_chat` observes the latencies of a stream.
use kvmux.Prelude.{◌≡◌, ◌⊎◌, Bool, true, false}
use kvmux.Server.Gateway.Attempt.{Sink}

-- Nothing sent and nothing observed, or the header sent and the first frame observed once.
abbrev pub IsTimed : Sink → Type 0
IsTimed s =
    ((s.header_started ≡ false)
      × (s.first_frame_seen ≡ false)
      × (s.ttft_count ≡ 0)
      × (s.itl_count ≡ 0))
    ⊎ ((s.header_started ≡ true) × (s.first_frame_seen ≡ true) × (s.ttft_count ≡ 1))

abbrev Timed : Sink × Bool → Type 0
Timed x = IsTimed x.0

-- After the header, the frame is the first one or a later one.
abbrev IsReady : Sink → Type 0
IsReady s =
    (s.header_started ≡ true)
    × (((s.first_frame_seen ≡ false) × (s.ttft_count ≡ 0))
        ⊎ ((s.first_frame_seen ≡ true) × (s.ttft_count ≡ 1)))

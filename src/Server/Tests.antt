-- ===== src/Server/Tests.antt =====
-- The writer's frames and the parser, on concrete payloads.
use kvmux.Prelude.{◌≡◌, refl, [], ◌∷◌, codes}
use kvmux.Upstream.Sse.{event_of, new, feed, drop_cr}
use kvmux.Server.SseWriter.RoundTrip.{frames, feed-frames}

feed-frames_example :
    feed new (frames (codes "{}" ∷ [] ∷ codes " [DONE]" ∷ []))
    ≡ (new, event_of (codes "{}") [] ∷ event_of [] [] ∷ event_of (codes " [DONE]") [] ∷ [])
unfolding drop_cr
feed-frames_example = feed-frames (codes "{}" ∷ [] ∷ codes " [DONE]" ∷ []) (
  ((refl, (refl, tt)), refl),
  ((tt, refl), (((refl, (refl, (refl, (refl, (refl, (refl, (refl, tt))))))), refl), tt)),
)

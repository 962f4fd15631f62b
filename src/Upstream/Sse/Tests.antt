-- ===== src/Upstream/Sse/Tests.antt =====
-- The parser on concrete streams.
use kvmux.Prelude.{◌≡◌, refl, true, false, [], ◌∷◌, Bytes, codes, equal}
use kvmux.Upstream.Sse.{event_of, new, feed, flush}
use kvmux.Upstream.Sse.Chunks.{feed_chunks, feed_chunks-concat}

abbrev stream : Bytes
stream = codes "event: ping\r\ndata: a\n: note\ndata: b\n\ndata: [DONE]"

feed-stream :
    feed new stream
    ≡ (record new { line_buf = codes "data: [DONE]" }, event_of (codes "a\nb") (codes "ping") ∷ [])
unfolding feed equal
feed-stream = refl

flush-stream : (flush (feed new stream).0).1 ≡ event_of (codes "[DONE]") [] ∷ []
unfolding feed flush equal
flush-stream = refl

feed_chunks-concat_example :
    feed_chunks new (codes "da" ∷ [] ∷ codes "ta: a\n\nda" ∷ codes "ta: b\n" ∷ [])
    ≡ feed new (codes "data: a\n\ndata: b\n")
feed_chunks-concat_example =
    feed_chunks-concat new (codes "da" ∷ [] ∷ codes "ta: a\n\nda" ∷ codes "ta: b\n" ∷ [])

-- A buffered carriage return: the event goes out, and the result says that none did.
flush_cr :
    flush (record new { line_buf = 13 ∷ []; cur_data = codes "a"; have_field = true })
    ≡ (new, event_of (codes "a") [] ∷ [], false)
unfolding flush
flush_cr = refl

-- ===== src/Upstream/Sse/Chunks.antt =====
-- The parser does not see how the bytes were cut into reads.
use mathlib.Core.List.{append_assoc, append-nil}
use kvmux.Prelude.{ℕ, ◌≡◌, refl, false, List, [], ◌∷◌, ◌++◌, ◌==◌, All, Bytes}
use kvmux.Upstream.Sse.{SseEvent, SseParser, complete_line, feed_byte, feed}

-- The reads of one response, one after the other.
unfoldable pub feed_chunks : SseParser → List Bytes → SseParser × List SseEvent
feed_chunks p [] = (p, [])
feed_chunks p (c ∷ cs) =
    let (q, evs) = feed p c in let (r, later) = feed_chunks q cs in (r, evs ++ later)

abbrev pub concat : List Bytes → Bytes
concat [] = []
concat (c ∷ cs) = c ++ concat cs

pub feed-append :
    (p : SseParser) (a b : Bytes)
    → feed p (a ++ b) ≡ ((feed (feed p a).0 b).0, (feed p a).1 ++ (feed (feed p a).0 b).1)
unfolding feed
feed-append p [] b = refl
feed-append p (c ∷ a) b =
    let ih = feed-append (feed_byte p c).0 a b in rw (feed, ih, append_assoc (feed_byte p c).1)

-- However the bytes of a response are cut into reads, the parser emits the same events in the same order,
-- and is left in the same state, as if they had come in one read.
pub feed_chunks-concat :
    (p : SseParser) (chunks : List Bytes) → feed_chunks p chunks ≡ feed p (concat chunks)
unfolding feed_chunks feed
feed_chunks-concat p [] = refl
feed_chunks-concat p (c ∷ cs) =
    rw (feed-append p c (concat cs), feed_chunks, feed_chunks-concat (feed p c).0 cs)

-- Bytes with no line feed are only buffered.
abbrev pub Lacks : ℕ → Bytes → Type 0
Lacks b = All (λ c. (c == b) ≡ false)

pub feed_plain :
    (p : SseParser) (l : Bytes)
    → Lacks b'\n' l
    → feed p l ≡ (record p { line_buf = p.line_buf ++ l }, [])
unfolding feed feed_byte
feed_plain p [] h = rw append-nil
feed_plain p (c ∷ l) h =
    let step : feed_byte p c ≡ (record p { line_buf = p.line_buf ++ c ∷ [] }, []) =
      rw (feed_byte, h.0) in
    rw (
      feed,
      step,
      feed_plain (record p { line_buf = p.line_buf ++ c ∷ [] }) l h.1,
      append_assoc p.line_buf (c ∷ []) l,
    )

-- A whole line, its line feed, and what follows.
pub feed_line :
    (p : SseParser) (l rest : Bytes)
    → Lacks b'\n' l
    → feed p (l ++ (b'\n' ∷ rest)) ≡ (
        let q = complete_line (record p { line_buf = p.line_buf ++ l }) in
        ((feed q.0 rest).0, q.1 ++ (feed q.0 rest).1))
unfolding feed feed_byte
feed_line p l rest h = rw (feed-append p l (b'\n' ∷ rest), feed_plain p l h)

-- ===== src/Server/SseWriter/RoundTrip.antt =====
-- What the parser of src/upstream reads from the frames that the writer sends.
use mathlib.Core.List.{append_assoc}
use kvmux.Prelude.{
  ℕ, ◌≡◌, refl, ap, ◌∙◌, ◌≢◌, true, false, List, [], ◌∷◌, ◌++◌, map, ◌==◌, if◌then◌else◌, All,
  Bytes, codes, equal,
}
use kvmux.Upstream.Sse.{
  is_nil, feed_byte, SseParser, event_of, new, feed, complete_line, drop_cr, field_of, process_line,
}
use kvmux.Upstream.Sse.Chunks.{Lacks, feed_line}
use kvmux.Server.SseWriter.{frame}

-- One line of text: no line feed, and no carriage return at its end.
abbrev pub IsLine : Bytes → Type 0
IsLine l = Lacks b'\n' l × (drop_cr l ≡ l)

drop_cr-cons : (c : ℕ) (l : Bytes) → (c == 13) ≡ false → drop_cr l ≡ l → drop_cr (c ∷ l) ≡ c ∷ l
unfolding drop_cr
drop_cr-cons c [] h e = rw h
drop_cr-cons c (d ∷ l) h e = ap (◌∷◌ c) e

abbrev data_line : Bytes → Bytes
data_line payload = codes "data: " ++ payload

data_line-drop_cr :
    (payload : Bytes) → IsLine payload → drop_cr (data_line payload) ≡ data_line payload
unfolding drop_cr
data_line-drop_cr payload h =
    ap (λ (l : Bytes). codes "data:" ++ l) (drop_cr-cons b' ' payload refl h.1)

complete_to :
    (p : SseParser) (l : Bytes)
    → drop_cr p.line_buf ≡ l
    → complete_line p ≡ (record (process_line p l).0 { line_buf = [] }, (process_line p l).1)
unfolding complete_line
complete_to p l e =
    ap (λ (l : Bytes). let (q, evs) = process_line p l in (record q { line_buf = [] }, evs)) e

process_data :
    (buf payload : Bytes)
    → process_line (record new { line_buf = buf }) (data_line payload)
      ≡ (record new { line_buf = buf; cur_data = payload; have_field = true }, [])
unfolding process_line equal
process_data buf payload = refl

complete_data :
    (payload : Bytes)
    → IsLine payload
    → complete_line (record new { line_buf = data_line payload })
      ≡ (record new { cur_data = payload; have_field = true }, [])
complete_data payload h =
    complete_to (record new { line_buf = data_line payload }) (data_line payload)
      (data_line-drop_cr payload h)
    ∙ rw process_data

-- A blank line after a field emits the event.
blank_line :
    (payload rest : Bytes)
    → feed (record new { cur_data = payload; have_field = true }) (b'\n' ∷ rest)
      ≡ ((feed new rest).0, event_of payload [] ∷ (feed new rest).1)
unfolding feed feed_byte complete_line
blank_line payload rest = refl

blank_end :
    (payload : Bytes)
    → feed (record new { cur_data = payload; have_field = true }) (b'\n' ∷ [])
      ≡ (new, event_of payload [] ∷ [])
unfolding feed
blank_end payload = blank_line payload []

-- A frame with a one-line payload is read as one event with that payload, and the parser is as new.
feed-frame :
    (payload rest : Bytes)
    → IsLine payload
    → feed new (frame payload ++ rest)
      ≡ ((feed new rest).0, event_of payload [] ∷ (feed new rest).1)
unfolding frame
feed-frame payload rest h =
    ap (feed new) (
      append_assoc (codes "data: ") (payload ++ (b'\n' ∷ b'\n' ∷ [])) rest
      ∙ ap (λ (l : Bytes). codes "data: " ++ l) (append_assoc payload (b'\n' ∷ b'\n' ∷ []) rest))
    ∙ feed_line new (data_line payload) (b'\n' ∷ rest)
        (refl, (refl, (refl, (refl, (refl, (refl, h.0))))))
    ∙ rw (complete_data payload h) (blank_line payload rest)

abbrev pub frames : List Bytes → Bytes
frames [] = []
frames (payload ∷ ps) = frame payload ++ frames ps

-- A client that parses the frames written for one-line payloads gets exactly those payloads, one event
-- each and in order, with nothing left in its buffers.
pub feed-frames :
    (payloads : List Bytes)
    → All IsLine payloads
    → feed new (frames payloads) ≡ (new, map (λ p. event_of p []) payloads)
unfolding feed
feed-frames [] a = refl
feed-frames (p ∷ ps) a = rw (feed-frame p (frames ps) a.0, feed-frames ps a.1)

-- Text with no colon that is not the name of a field that the parser knows.
abbrev pub IsUnknown : Bytes → Type 0
IsUnknown l =
    Lacks b':' l × (equal l (codes "data") ≡ false) × (equal l (codes "event") ≡ false) × (l ≢ [])

field_of-plain : (l : Bytes) → Lacks b':' l → field_of l ≡ l
unfolding field_of
field_of-plain [] h = refl
field_of-plain (c ∷ l) h = rw (h.0) (ap (◌∷◌ c) (field_of-plain l h.1))

process_unknown :
    (p : SseParser) (l : Bytes)
    → IsUnknown l
    → process_line p l ≡ (record p { have_field = true }, [])
unfolding process_line
process_unknown p [] h = absurd (h.3 refl)
process_unknown p (c ∷ l) h = rw (h.0.0, field_of-plain l h.0.1, h.1, h.2)

-- The writer puts `data: ` in front of the payload once. So of an event whose payload has two lines,
-- which the parser joins with a line feed, a client gets the first line only, unless the second
-- happens to read as a field.
pub two_lines_lost :
    (first second : Bytes)
    → IsLine first
    → IsLine second
    → IsUnknown second
    → feed new (frame (first ++ (b'\n' ∷ second))) ≡ (new, event_of first [] ∷ [])
unfolding frame
two_lines_lost first second h k u =
    let after_first = record new { cur_data = first; have_field = true } in
    ap (feed new) (
      ap (λ (l : Bytes). codes "data: " ++ l)
        (append_assoc first (b'\n' ∷ second) (b'\n' ∷ b'\n' ∷ [])))
    ∙ feed_line new (data_line first) (second ++ (b'\n' ∷ b'\n' ∷ []))
        (refl, (refl, (refl, (refl, (refl, (refl, h.0))))))
    ∙ rw (complete_data first h) (
        feed_line after_first second (b'\n' ∷ []) k.0
        ∙ rw (
          complete_to (record after_first { line_buf = second }) second k.1,
          process_unknown (record after_first { line_buf = second }) second u,
          blank_end first,
        ))

process_more :
    (buf first second : Bytes)
    → process_line
        (record new { line_buf = buf; cur_data = first; have_field = true })
        (data_line second)
      ≡ (
        record new {
          line_buf = buf;
          cur_data = (if is_nil first then [] else first ++ b'\n' ∷ []) ++ second;
          have_field = true;
        },
        [],
      )
unfolding process_line equal
process_more buf first second = refl

-- Two `data` lines of one event are joined with a line feed, but for an empty first line, of which
-- nothing is left.
pub data_lines_join :
    (first second : Bytes)
    → IsLine first
    → IsLine second
    → feed new (codes "data: " ++ (first ++ (b'\n' ∷ frame second)))
      ≡ (new, event_of ((if is_nil first then [] else first ++ b'\n' ∷ []) ++ second) [] ∷ [])
unfolding frame
data_lines_join first second h k =
    let after_first = record new { cur_data = first; have_field = true } in
    feed_line new (data_line first) (frame second)
      (refl, (refl, (refl, (refl, (refl, (refl, h.0))))))
    ∙ rw (complete_data first h) (
        feed_line after_first (data_line second) (b'\n' ∷ [])
          (refl, (refl, (refl, (refl, (refl, (refl, k.0))))))
        ∙ rw (
          complete_to (record after_first { line_buf = data_line second }) (data_line second)
              (data_line-drop_cr second k),
          process_more (data_line second) first second,
          blank_end,
        ))

-- ===== src/Upstream/Sse.antt =====
-- src/upstream/sse_parser.hpp and sse_parser.cpp. The callback's calls are the list of events that an
-- operation returns, in order.
pub mod Chunks
pub mod Tests
use kvmux.Prelude.{
  ℕ, ◌+◌, Bool, true, false, List, [], ◌∷◌, ◌++◌, ◌==◌, if◌then◌else◌, length, Bytes, codes, equal,
}

-- `data` is a word of the language, so the field is `payload`.
pub record SseEvent : Type 0 where
  pub payload : Bytes
  pub event : Bytes

abbrev pub event_of : Bytes → Bytes → SseEvent
event_of payload event = record { payload = payload; event = event }

unfoldable pub is_done : SseEvent → Bool
is_done ev = equal ev.payload (codes "[DONE]")

pub record SseParser : Type 0 where
  pub line_buf : Bytes
  pub cur_data : Bytes
  pub cur_event : Bytes
  pub have_field : Bool

abbrev pub new : SseParser
new = record { line_buf = []; cur_data = []; cur_event = []; have_field = false }

abbrev pub buffered : SseParser → ℕ
buffered p = length p.line_buf + length p.cur_data

unfoldable pub strip_leading_space : Bytes → Bytes
strip_leading_space [] = []
strip_leading_space (c ∷ cs) = if c == b' ' then cs else c ∷ cs

-- `if (!line.empty() && line.back() == '\r') line.remove_suffix(1)`
unfoldable pub drop_cr : Bytes → Bytes
drop_cr [] = []
drop_cr (c ∷ []) = if c == 13 then [] else c ∷ []
drop_cr (c ∷ d ∷ cs) = c ∷ drop_cr (d ∷ cs)

-- `line.substr(0, line.find(':'))`, and what follows the first colon, or nothing.
unfoldable pub field_of : Bytes → Bytes
field_of [] = []
field_of (c ∷ cs) = if c == b':' then [] else c ∷ field_of cs

unfoldable pub value_of : Bytes → Bytes
value_of [] = []
value_of (c ∷ cs) = if c == b':' then cs else value_of cs

unfoldable pub dispatch : SseParser → SseParser × List SseEvent
dispatch p =
    if p.have_field
    then (
      record p { cur_data = []; cur_event = []; have_field = false },
      event_of p.cur_data p.cur_event ∷ [],
    )
    else (p, [])

abbrev pub is_nil : Bytes → Bool
is_nil [] = true
is_nil (c ∷ cs) = false

-- One field line: `field` and the stripped `value`.
unfoldable pub store_field : SseParser → Bytes → Bytes → SseParser
store_field p field value =
    if equal field (codes "data")
    then record p {
      cur_data = (if is_nil p.cur_data then [] else p.cur_data ++ b'\n' ∷ []) ++ value;
      have_field = true;
    }
    else if equal field (codes "event")
    then record p { cur_event = value; have_field = true }
    else record p { have_field = true }

unfoldable pub process_line : SseParser → Bytes → SseParser × List SseEvent
unfolding dispatch store_field strip_leading_space field_of value_of
process_line p [] = dispatch p
process_line p (c ∷ cs) =
    if c == b':'
    then (p, [])
    else (store_field p (field_of (c ∷ cs)) (strip_leading_space (value_of (c ∷ cs))), [])

-- The buffered line is complete: its carriage return is dropped, it is processed, and the buffer is
-- cleared.
unfoldable pub complete_line : SseParser → SseParser × List SseEvent
unfolding drop_cr process_line
complete_line p =
    let (q, evs) = process_line p (drop_cr p.line_buf) in (record q { line_buf = [] }, evs)

-- One byte of `feed`.
unfoldable pub feed_byte : SseParser → ℕ → SseParser × List SseEvent
unfolding complete_line
feed_byte p c =
    if c == b'\n' then complete_line p else (record p { line_buf = p.line_buf ++ c ∷ [] }, [])

unfoldable pub feed : SseParser → Bytes → SseParser × List SseEvent
unfolding feed_byte
feed p [] = (p, [])
feed p (c ∷ cs) = let (q, evs) = feed_byte p c in let (r, later) = feed q cs in (r, evs ++ later)

-- The first half of `flush`: a buffered partial line is a line.
unfoldable pub flush_line : SseParser → SseParser × List SseEvent
unfolding complete_line
flush_line p = if is_nil p.line_buf then (p, []) else complete_line p

unfoldable pub flush : SseParser → SseParser × List SseEvent × Bool
unfolding flush_line dispatch
flush p =
    let (q, evs) = flush_line p in
    if q.have_field then (let (r, last) = dispatch q in (r, evs ++ last, true)) else (q, evs, false)

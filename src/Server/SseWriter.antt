-- ===== src/Server/SseWriter.antt =====
-- src/server/sse_writer.hpp and sse_writer.cpp. What has gone out on the socket is a list of pieces.
-- Each write may fail: then it throws, the state is as it was, and nothing that the model sees went out.
pub mod RoundTrip
use kvmux.Prelude.{
  Bool, true, false, Option, none, some, List, [], ◌∷◌, ◌++◌, if◌then◌else◌, Bytes, codes,
}

pub data Piece : Type 0 where
  -- the response header, with its `Connection` value
  header : Bool → Piece
  -- one HTTP chunk with these bytes
  chunk : Bytes → Piece
  last_chunk : Piece

pub record SseWriter : Type 0 where
  pub keep_alive : Bool
  pub header_sent : Bool
  pub ended : Bool
  pub sent : List Piece

abbrev pub new : Bool → SseWriter
new keep_alive = record { keep_alive = keep_alive; header_sent = false; ended = false; sent = [] }

-- A write to the socket: whether it succeeded, and the writer then.
abbrev pub put : SseWriter → Bool → Piece → Option SseWriter
put w works piece = if works then some (record w { sent = w.sent ++ piece ∷ [] }) else none

abbrev pub mark_header : SseWriter → SseWriter
mark_header w = record w { header_sent = true }

abbrev pub mark_ended : SseWriter → SseWriter
mark_ended w = record w { ended = true }

abbrev pub map_option {ℓ κ} : {A : Type ℓ} {B : Type κ} → (A → B) → Option A → Option B
map_option f none = none
map_option f (some a) = some (f a)

-- `none` is an exception. The first argument says whether the socket takes the write.
unfoldable pub begin : Bool → SseWriter → Option SseWriter
begin works w =
    if w.header_sent then some w else map_option mark_header (put w works (header w.keep_alive))

unfoldable pub frame : Bytes → Bytes
frame payload = codes "data: " ++ (payload ++ (b'\n' ∷ b'\n' ∷ []))

unfoldable pub write_data : Bool → SseWriter → Bytes → Option SseWriter
unfolding frame
write_data works w payload = put w works (chunk (frame payload))

unfoldable pub end : Bool → SseWriter → Option SseWriter
end works w = if w.ended then some w else map_option mark_ended (put w works last_chunk)

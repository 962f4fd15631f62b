-- ===== src/Upstream/Target.antt =====
-- `Target::parse` of src/upstream/client.hpp and client.cpp.
pub mod RoundTrip
pub mod Tests
use kvmux.Prelude.{
  ◌/◌, ◌||◌, Option, none, some, [], ◌∷◌, ◌==◌, if◌then◌else◌, Bytes, codes, ℕ, is_empty,
}

pub record Target : Type 0 where
  pub host : Bytes
  pub port : Bytes

-- A target, or one of the two exceptions.
pub data Parsed : Type 0 where
  target : Target → Parsed
  https_unsupported : Parsed
  unparsable : Parsed

-- What follows a prefix.
unfoldable pub strip_prefix : Bytes → Bytes → Option Bytes
strip_prefix [] text = some text
strip_prefix (p ∷ ps) [] = none
strip_prefix (p ∷ ps) (c ∷ cs) = if p == c then strip_prefix ps cs else none

-- `s.substr(0, s.find(c))`, the whole text if there is no such byte.
unfoldable pub up_to : ℕ → Bytes → Bytes
up_to c [] = []
up_to c (d ∷ ds) = if d == c then [] else d ∷ up_to c ds

-- `s.substr(s.find(c) + 1)`, if there is such a byte.
unfoldable pub past : ℕ → Bytes → Option Bytes
past c [] = none
past c (d ∷ ds) = if d == c then some ds else past c ds

unfoldable pub check_target : Target → Parsed
check_target t = if is_empty t.host || is_empty t.port then unparsable else target t

unfoldable pub host_and_port : Bytes → Target
unfolding up_to past
host_and_port s = elim (past b':' s) [
  | none ↦ record { host = s; port = codes "80" }
  | some port ↦ record { host = up_to b':' s; port = port }
]

-- From the scheme on: the path is cut off, and the rest is split at its first colon.
unfoldable pub parse_authority : Bytes → Parsed
unfolding up_to host_and_port check_target
parse_authority s = check_target (host_and_port (up_to b'/' s))

unfoldable pub parse : Bytes → Parsed
unfolding strip_prefix parse_authority
parse base_url = elim (strip_prefix (codes "http://") base_url) [
  | some rest ↦ parse_authority rest
  | none ↦ elim (strip_prefix (codes "https://") base_url) [
    | some rest ↦ https_unsupported
    | none ↦ parse_authority base_url
  ]
]

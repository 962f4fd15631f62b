-- ===== src/Metrics/Series.antt =====
-- `Labels`, `esc` and `Registry::label_str` of src/metrics/registry.hpp and registry.cpp.
pub mod Reading
pub mod Tests
use kvmux.Prelude.{[], ◌∷◌, ◌++◌, ◌==◌, if◌then◌else◌, Bytes, codes, ℕ}

pub record Labels : Type 0 where
  pub route : Bytes
  pub backend : Bytes
  pub model : Bytes

abbrev pub esc_byte : ℕ → Bytes
esc_byte c =
    if c == b'\\'
    then codes "\\\\"
    else if c == b'"'
    then codes "\\\""
    else if c == b'\n'
    then codes "\\n"
    else c ∷ []

unfoldable pub esc : Bytes → Bytes
esc [] = []
esc (c ∷ cs) = esc_byte c ++ esc cs

-- A value between its quotes, with what follows.
abbrev pub quoted : Bytes → Bytes → Bytes
quoted value rest = esc value ++ (b'"' ∷ rest)

unfoldable pub label_str : Labels → Bytes
label_str l =
    codes "{route=\""
    ++ quoted l.route
        (codes ",backend=\"" ++ quoted l.backend (codes ",model=\"" ++ quoted l.model (codes "}")))

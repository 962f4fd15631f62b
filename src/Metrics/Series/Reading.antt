-- ===== src/Metrics/Series/Reading.antt =====
-- Reading a label set back from its text.
use kvmux.Prelude.{
  Option, none, some, ◌≡◌, refl, Bool, true, false, [], ◌∷◌, ◌++◌, arith, ◌==◌, if◌then◌else◌,
  Bytes, codes,
}
use kvmux.Metrics.Series.{Labels, esc, quoted, label_str}

-- A value up to its closing quote, and the rest; the flag is set after a backslash.
pub read_value : Bool → Bytes → Bytes × Bytes
read_value escaped [] = ([], [])
read_value true (c ∷ cs) =
    let (value, rest) = read_value false cs in ((if c == b'n' then b'\n' else c) ∷ value, rest)
read_value false (c ∷ cs) =
    let plain = read_value false cs in
    let escaped = read_value true cs in
    if c == b'"' then ([], cs) else if c == b'\\' then escaped else (c ∷ plain.0, plain.1)

pub read_value-quoted : (v rest : Bytes) → read_value false (quoted v rest) ≡ (v, rest)
unfolding read_value esc
read_value-quoted [] rest = refl
read_value-quoted (c ∷ cs) rest = ground (arith, read_value-quoted cs rest)

-- What follows a text.
unfoldable pub expect : Bytes → Bytes → Option Bytes
expect [] text = some text
expect (k ∷ ks) [] = none
expect (k ∷ ks) (c ∷ cs) = if k == c then expect ks cs else none

-- A key with what stands around it, a value, and the rest.
unfoldable pub read_field : Bytes → Bytes → Option (Bytes × Bytes)
unfolding expect
read_field key text = elim (expect key text) [
  | none ↦ none
  | some rest ↦ some (read_value false rest)
]

abbrev pub and_then : {A : Type 0} → Option (Bytes × Bytes) → (Bytes → Bytes → Option A) → Option A
and_then none f = none
and_then (some (value, rest)) f = f value rest

-- The three values in their order, and the rest; `none` if a key or a quote before a value is missing.
unfoldable pub read_labels : Bytes → Option (Labels × Bytes)
unfolding read_field
read_labels text = and_then (read_field (codes "{route=\"") text) (λ route rest1.
    and_then (read_field (codes ",backend=\"") rest1) (λ backend rest2.
      and_then (read_field (codes ",model=\"") rest2)
        (λ model rest3. some (record { route = route; backend = backend; model = model }, rest3))))

-- The text of a label set up to the quote after its last value.
pub read_labels-quoted :
    (l : Labels) (rest : Bytes)
    → read_labels (
        codes "{route=\""
        ++ quoted l.route
            (codes ",backend=\"" ++ quoted l.backend (codes ",model=\"" ++ quoted l.model rest)))
      ≡ some (l, rest)
unfolding read_labels read_field expect
read_labels-quoted l rest =
    rw
      (
        read_value-quoted l.route
            (codes ",backend=\"" ++ quoted l.backend (codes ",model=\"" ++ quoted l.model rest)),
        read_value-quoted l.backend (codes ",model=\"" ++ quoted l.model rest),
        read_value-quoted l.model rest,
      )
      refl

-- The text of a label set can be read back, whatever bytes its values hold, quotes, backslashes and line
-- feeds included; the closing brace is left.
pub read_labels-label_str : (l : Labels) → read_labels (label_str l) ≡ some (l, codes "}")
unfolding label_str
read_labels-label_str l = read_labels-quoted l (codes "}")

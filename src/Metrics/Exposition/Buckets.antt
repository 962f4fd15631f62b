-- ===== src/Metrics/Exposition/Buckets.antt =====
-- The labels of a bucket line.
use mathlib.Core.List.{append_assoc}
use kvmux.Prelude.{
  ℕ, ◌-◌, ◌≡◌, refl, sym, ap, ◌∙◌, some, [], ◌∷◌, ◌++◌, arith, length, take, length-append, Bytes,
  codes, equal,
}
use kvmux.Metrics.Series.{Labels, esc, quoted, label_str}
use kvmux.Metrics.Series.Reading.{read_labels, read_labels-quoted}
use kvmux.Metrics.Exposition.{inner, with_le}

strip_last : (xs : Bytes) (d : ℕ) → take (length xs) (xs ++ d ∷ []) ≡ xs
strip_last [] d = refl
strip_last (x ∷ xs) d = ap (◌∷◌ x) (strip_last xs d)

inner_lem : (c d : ℕ) (xs : Bytes) → inner (c ∷ (xs ++ d ∷ [])) ≡ xs
inner_lem c d xs =
    let e : length (c ∷ (xs ++ d ∷ [])) - 2 ≡ length xs =
      omega (arith, length-append xs (d ∷ [])) in
    rw e (strip_last xs d)

-- The text of a label set without its first byte and its last.
abbrev middle : Labels → Bytes → Bytes
middle l tail =
    codes "route=\""
    ++ quoted l.route
        (codes ",backend=\"" ++ quoted l.backend (codes ",model=\"" ++ quoted l.model tail))

quoted-append : (v rest tail : Bytes) → quoted v rest ++ tail ≡ quoted v (rest ++ tail)
quoted-append v rest tail = append_assoc (esc v) (b'"' ∷ rest) tail

middle-append : (l : Labels) (tail : Bytes) → middle l tail ≡ middle l [] ++ tail
middle-append l tail = sym (rw (quoted-append, quoted-append, quoted-append) refl)

with_le-middle :
    (l : Labels) (le : Bytes)
    → with_le (label_str l) le ≡ b'{' ∷ middle l (codes ",le=\"" ++ (le ++ codes "\"}"))
unfolding with_le label_str equal
with_le-middle l le =
    ap (λ xs. b'{' ∷ (xs ++ (codes ",le=\"" ++ (le ++ codes "\"}"))))
      (ap (λ xs. inner (b'{' ∷ xs)) (middle-append l (codes "}"))
        ∙ inner_lem b'{' b'}' (middle l []))
    ∙ ap (◌∷◌ b'{') (sym (middle-append l (codes ",le=\"" ++ (le ++ codes "\"}"))))

-- The label text of a bucket is the one of its series with `le` added: whatever bytes the labels hold, it
-- reads back as the label set of the series, followed by a comma, `le` with the bound in quotes, and the
-- closing brace.
pub read_labels-with_le :
    (l : Labels) (le : Bytes)
    → read_labels (with_le (label_str l) le) ≡ some (l, codes ",le=\"" ++ (le ++ codes "\"}"))
read_labels-with_le l le =
    ap read_labels (with_le-middle l le)
    ∙ read_labels-quoted l (codes ",le=\"" ++ (le ++ codes "\"}"))

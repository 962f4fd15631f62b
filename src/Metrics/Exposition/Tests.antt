-- ===== src/Metrics/Exposition/Tests.antt =====
-- A bucket of a series whose labels need escapes, and the order of the entries.
use kvmux.Prelude.{ℕ, ◌≡◌, refl, some, [], ◌∷◌, codes, equal}
use kvmux.Metrics.Series.{Labels, label_str, esc}
use kvmux.Metrics.Series.Reading.{read_labels}
use kvmux.Metrics.Exposition.{with_le, in_order, place, less}
use kvmux.Metrics.Exposition.Buckets.{read_labels-with_le}

abbrev odd : Labels
odd = record { route = codes "a\"b"; backend = codes "c\\"; model = codes "line" }

bucket_text :
    with_le (label_str odd) (codes "0.5")
    ≡ codes "{route=\"a\\\"b\",backend=\"c\\\\\",model=\"line\",le=\"0.5\"}"
unfolding with_le label_str esc equal
bucket_text = refl

read_labels-with_le_example :
    read_labels (with_le (label_str odd) (codes "0.5")) ≡ some (odd, codes ",le=\"0.5\"}")
read_labels-with_le_example = read_labels-with_le odd (codes "0.5")

in_order-codes :
    in_order {V = ℕ} less ((codes "502", 1) ∷ (codes "200", 7) ∷ [])
    ≡ (codes "200", 7) ∷ (codes "502", 1) ∷ []
unfolding in_order place less
in_order-codes = refl

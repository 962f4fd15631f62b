-- ===== src/Metrics/Series/Tests.antt =====
-- The text of a label set whose values need escapes.
use kvmux.Prelude.{◌≡◌, refl, codes}
use kvmux.Metrics.Series.{Labels, label_str, esc}

abbrev odd : Labels
odd = record { route = codes "a\"b"; backend = codes "c\\n"; model = codes "line\nend" }

odd_text : label_str odd ≡ codes "{route=\"a\\\"b\",backend=\"c\\\\n\",model=\"line\\nend\"}"
unfolding label_str esc
odd_text = refl

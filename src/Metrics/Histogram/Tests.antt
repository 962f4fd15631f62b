-- ===== src/Metrics/Histogram/Tests.antt =====
-- A histogram over natural numbers.
use kvmux.Prelude.Int.{pos, negsuc}
use kvmux.Prelude.{◌≤◌, ◌/◌, ltb, ◌+◌, ◌*◌, ◌≡◌, true, arith, leb, ℕ}
use kvmux.Prelude.Double.{Double}

pub leb_trans : (a b c : ℕ) → leb a b ≡ true → leb b c ≡ true → leb a c ≡ true
leb_trans a b c h k = ground arith

pub thousands_le : (m n : ℕ) → m ≤ n → leb (m / 1000) (n / 1000) ≡ true
thousands_le m n h = ground arith

abbrev pub whole_numbers : Double
whole_numbers = record {
  Value = ℕ;
  zero_value = 0;
  of_int = λ n. n;
  add = λ a b. a + b;
  mul = λ a b. a * b;
  of_int64 = λ z. elim z [ pos n ↦ n | negsuc n ↦ 0 ];
  tenths = λ n. n / 10;
  lt = ltb;
  le = leb;
  le_trans = leb_trans;
  thousandths = λ n. n / 1000;
  thousandths_le = thousands_le;
}

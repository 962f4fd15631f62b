-- ===== src/Routing/Tests.antt =====
-- Concrete candidates under both policies, with a checksum for the hash and tenths for the doubles.
use kvmux.Prelude.{
  ◌≤◌, ltb, ℕ, ◌+◌, ◌*◌, ◌/◌, ◌%◌, ◌≡◌, refl, Bool, true, not, List, [], ◌∷◌, arith, leb, ◌==◌,
  Bytes, codes,
}
use kvmux.Prelude.Double.{Double}
use kvmux.Routing.{Candidate, RouteRequest}
use kvmux.Routing.RoundRobin.{order as rr_order}
use kvmux.Routing.RoundRobin.Fair.{order-rotation}
use kvmux.Prelude.Int.{pos, negsuc}
use kvmux.Routing.Hrw.{hrw_rank, insert, sort, le_bytes}
use kvmux.Routing.Hrw.Churn.{keep_if, hrw_rank-keep_if}
use kvmux.Routing.Affinity.{order, overloaded, load_of, guard_head, place_head}
use kvmux.Routing.Affinity.Guard.{Split, order-Split}

tenths_le_trans : (a b c : ℕ) → leb a b ≡ true → leb b c ≡ true → leb a c ≡ true
tenths_le_trans a b c h k = ground arith

hundreds_le : (m n : ℕ) → m ≤ n → leb (m / 100) (n / 100) ≡ true
hundreds_le m n h = ground arith

abbrev tenths : Double
tenths = record {
  Value = ℕ;
  zero_value = 0;
  of_int = λ n. n * 10;
  add = λ a b. a + b;
  mul = λ a b. a * b / 10;
  of_int64 = λ z. elim z [ pos n ↦ n * 10 | negsuc n ↦ 0 ];
  tenths = λ n. n;
  lt = ltb;
  le = leb;
  le_trans = tenths_le_trans;
  thousandths = λ n. n / 100;
  thousandths_le = hundreds_le;
}

abbrev checksum : Bytes → ℕ
checksum [] = 7
checksum (b ∷ bs) = (checksum bs * 31 + b) % 1009

abbrev candidate : ℕ → ℕ → Candidate
candidate i active = record { backend_index = i; active_requests = active; max_in_flight = 8 }

abbrev trio : List Candidate
trio = candidate 0 1 ∷ candidate 1 7 ∷ candidate 2 7 ∷ []

abbrev request : RouteRequest
request = record { affinity_key = codes "m" }

order-rotation_example :
    ((rr_order (record { cursor = 4 }) request trio).1.order ≡ 1 ∷ 2 ∷ 0 ∷ [])
    × ((rr_order (record { cursor = 4 }) request trio).1.spills ≡ 0)
    × ((rr_order (record { cursor = 4 }) request trio).0.cursor ≡ 5)
order-rotation_example = order-rotation (record { cursor = 4 }) request trio (λ e. cc) (omega arith)

trio_rank : hrw_rank checksum 5 trio ≡ 2 ∷ 1 ∷ 0 ∷ []
unfolding hrw_rank sort insert le_bytes
trio_rank = refl

abbrev not_one : ℕ → Bool
not_one i = not (i == 1)

hrw_rank-keep_if_example :
    hrw_rank checksum 5 (candidate 0 1 ∷ candidate 2 7 ∷ [])
    ≡ keep_if not_one (hrw_rank checksum 5 trio)
hrw_rank-keep_if_example = hrw_rank-keep_if checksum 5 not_one trio

spills_twice : order tenths checksum 8 request trio ≡ record { order = 0 ∷ 2 ∷ 1 ∷ []; spills = 2 }
unfolding order overloaded load_of guard_head place_head hrw_rank sort insert le_bytes
spills_twice = refl

order-Split_example :
    Split
      (overloaded tenths checksum 8 trio)
      (hrw_rank checksum (checksum request.affinity_key) trio)
      (order tenths checksum 8 request trio).order
      (order tenths checksum 8 request trio).spills
order-Split_example = order-Split tenths checksum 8 request trio (λ e. cc)

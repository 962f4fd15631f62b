-- ===== src/Routing/RoundRobin.antt =====
-- src/routing/round_robin.hpp and round_robin.cpp. The cursor is a uint64_t, so it wraps.
pub mod Fair
use kvmux.Prelude.{ℕ, zero, suc, ◌+◌, ◌%◌, ◌^◌, List, [], ◌∷◌, length}
use kvmux.Routing.{Candidate, RouteRequest, RouteOrder}

pub record RoundRobin : Type 0 where
  pub cursor : ℕ

abbrev pub u64_mod : ℕ
u64_mod = 2 ^ 64

-- `candidates[idx].backend_index`; the index is always in range.
abbrev pub index_at : List Candidate → ℕ → ℕ
index_at [] i = 0
index_at (c ∷ cs) zero = c.backend_index
index_at (c ∷ cs) (suc i) = index_at cs i

-- `k` rounds of a loop from `i`, each of which pushes `f i`.
unfoldable pub collect : (ℕ → ℕ) → ℕ → ℕ → List ℕ
collect f i zero = []
collect f i (suc k) = f i ∷ collect f (i + 1) k

unfoldable pub order : RoundRobin → RouteRequest → List Candidate → RoundRobin × RouteOrder
unfolding collect
order rr req [] = (rr, record { order = []; spills = 0 })
order rr req (c ∷ cs) =
    let candidates = c ∷ cs in
    let n = length candidates in
    let start = rr.cursor in
    (
      record { cursor = (start + 1) % u64_mod },
      record {
        order = collect (λ i. index_at candidates ((start + i) % u64_mod % n)) 0 n;
        spills = 0;
      },
    )

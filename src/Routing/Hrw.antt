-- ===== src/Routing/Hrw.antt =====
-- `hrw_rank` of src/routing/prefix_affinity.cpp. XXH64 is a third-party hash, so it is a parameter, and
-- nothing is asked of it. `memcpy` of a uint64_t gives its bytes in the order of a little-endian
-- machine. `std::sort` by a strict order is an insertion sort here: the order is total on the pairs
-- of score and index, so the result is the same.
pub mod Sorted
pub mod Sticky
pub mod Churn
use kvmux.Prelude.{
  ℕ, zero, suc, ◌/◌, ◌%◌, Bool, not, List, [], ◌∷◌, ◌++◌, map, ltb, ◌==◌, if◌then◌else◌, Bytes,
}
use kvmux.Routing.{Candidate, RouteRequest, RouteOrder}

pub record Scored : Type 0 where
  pub backend_index : ℕ
  pub score : ℕ

-- The comparison that `std::sort` is given.
abbrev pub before : Scored → Scored → Bool
before a b =
    if not (a.score == b.score) then ltb b.score a.score else ltb a.backend_index b.backend_index

unfoldable pub insert : Scored → List Scored → List Scored
insert x [] = x ∷ []
insert x (y ∷ ys) = if before y x then y ∷ insert x ys else x ∷ y ∷ ys

unfoldable pub sort : List Scored → List Scored
sort [] = []
sort (x ∷ xs) = insert x (sort xs)

-- The `k` low bytes of a number, the lowest first.
unfoldable pub le_bytes : ℕ → ℕ → Bytes
le_bytes zero n = []
le_bytes (suc k) n = (n % 256) ∷ le_bytes k (n / 256)

module _ (xxh64 : Bytes → ℕ) where
  abbrev pub scored : ℕ → Candidate → Scored
  scored key c = record {
    backend_index = c.backend_index;
    score = xxh64 (le_bytes 8 key ++ le_bytes 8 c.backend_index);
  }

  unfoldable pub hrw_rank : ℕ → List Candidate → List ℕ
  hrw_rank key candidates = map (λ s. s.backend_index) (sort (map (scored key) candidates))

-- ===== src/Routing/Hrw/Sticky.antt =====
-- The ranking depends on the set of candidates only, not on their order.
use mathlib.Core.List.Perm
use mathlib.Core.List.{Perm, Permᴰ, is_set}
use mathlib.Core.Path.{ap₂}
use mathlib.Core.Logic.{∥∥₁_elim}
use native.Mathlib.Nat.{ℕ_set}
use kvmux.Prelude.{ℕ, ◌≡◌, refl, ap, ◌∙◌, List, [], ◌∷◌, map, arith, Bytes}
use kvmux.Routing.{Candidate}
use kvmux.Routing.Hrw.{Scored, insert, sort, scored, hrw_rank}
use kvmux.Routing.Hrw.Sorted.{before_antisym}

insert_comm : (x y : Scored) (zs : List Scored) → insert x (insert y zs) ≡ insert y (insert x zs)
unfolding insert
insert_comm x y [] = ground (arith, before_antisym x y)
insert_comm x y (z ∷ zs) = ground (arith, insert_comm x y zs, before_antisym x y)

sort_cong : {xs ys : List Scored} → Permᴰ xs ys → sort xs ≡ sort ys
unfolding sort
sort_cong Permᴰ.nil = refl
sort_cong (Permᴰ.cons {l₂ = ys} e p) = ap₂ insert e (sort_cong p)
sort_cong (Permᴰ.swap {a = a} {b = b} {l = l} e f) = rw (← e, ← f) (insert_comm a b (sort l))
sort_cong (Permᴰ.trans p q) = sort_cong p ∙ sort_cong q

-- The ranking of a key does not depend on the order in which the candidates are listed: any two lists
-- of the same candidates get the same ranking, whatever the hash.
pub hrw_rank-perm :
    (xxh64 : Bytes → ℕ) (key : ℕ) {cs ds : List Candidate}
    → Perm cs ds
    → hrw_rank xxh64 key cs ≡ hrw_rank xxh64 key ds
unfolding hrw_rank
hrw_rank-perm xxh64 key p =
    ∥∥₁_elim (Perm.map (scored xxh64 key) p) (is_set ℕ_set _ _)
      (λ q. ap (map (λ (s : Scored). s.backend_index)) (sort_cong q))

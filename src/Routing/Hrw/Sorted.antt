-- ===== src/Routing/Hrw/Sorted.antt =====
-- The sort: its result is ordered, and holds what it was given.
use mathlib.Core.List.Perm
use mathlib.Core.List.{Perm}
use kvmux.Prelude.{◌≡◌, inl, inr, true, false, List, [], ◌∷◌, arith, Bool-cases, All}
use kvmux.Routing.Hrw.{Scored, before, insert, sort}

before_asym : (x y : Scored) → before x y ≡ true → before y x ≡ false
before_asym x y h = ground arith

pub before_antisym : (x y : Scored) → before x y ≡ false → before y x ≡ false → x ≡ y
before_antisym x y h k = ground arith

-- `y` does not come before `x`.
pub not_before_trans :
    (x y z : Scored) → before y x ≡ false → before z y ≡ false → before z x ≡ false
not_before_trans x y z h k = ground arith

-- No later element comes before an earlier one.
abbrev pub IsSorted : List Scored → Type 0
IsSorted [] = Unit
IsSorted (x ∷ xs) = All (λ y. before y x ≡ false) xs × IsSorted xs

insert-All :
    (P : Scored → Type 0) (x : Scored) (xs : List Scored) → P x → All P xs → All P (insert x xs)
unfolding insert
insert-All P x [] p a = (p, tt)
insert-All P x (y ∷ ys) p a = elim (Bool-cases (before y x)) [
  | inl e ↦ rw e (a.0, insert-All P x ys p a.1)
  | inr e ↦ rw e (p, a)
]

pub All-not_before :
    (x y : Scored) (ys : List Scored)
    → before y x ≡ false
    → All (λ z. before z y ≡ false) ys
    → All (λ z. before z x ≡ false) ys
All-not_before x y [] h a = tt
All-not_before x y (z ∷ zs) h a = (not_before_trans x y z h a.0, All-not_before x y zs h a.1)

pub insert-IsSorted : (x : Scored) (xs : List Scored) → IsSorted xs → IsSorted (insert x xs)
unfolding insert
insert-IsSorted x [] s = (tt, tt)
insert-IsSorted x (y ∷ ys) s = elim (Bool-cases (before y x)) [
  | inl e ↦
      rw e (
        insert-All (λ z. before z y ≡ false) x ys (before_asym y x e) s.0,
        insert-IsSorted x ys s.1,
      )
  | inr e ↦ rw e ((e, All-not_before x y ys e s.0), s)
]

pub sort-IsSorted : (xs : List Scored) → IsSorted (sort xs)
unfolding sort
sort-IsSorted [] = tt
sort-IsSorted (x ∷ xs) = insert-IsSorted x (sort xs) (sort-IsSorted xs)

insert-perm : (x : Scored) (xs : List Scored) → Perm (insert x xs) (x ∷ xs)
unfolding insert
insert-perm x [] = Perm.refl (x ∷ [])
insert-perm x (y ∷ ys) = elim (Bool-cases (before y x)) [
  | inl e ↦ rw e (Perm.trans (Perm.cons y (insert-perm x ys)) (Perm.swap x y ys))
  | inr e ↦ rw e (Perm.refl (x ∷ y ∷ ys))
]

pub sort-perm : (xs : List Scored) → Perm (sort xs) xs
unfolding sort
sort-perm [] = Perm.refl []
sort-perm (x ∷ xs) = Perm.trans (insert-perm x (sort xs)) (Perm.cons x (sort-perm xs))

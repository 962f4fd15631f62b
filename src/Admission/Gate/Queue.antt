-- ===== src/Admission/Gate/Queue.antt =====
-- The identifiers of those who wait, in order of arrival, split by their flags.
use kvmux.Prelude.{
  ℕ, suc, ◌+◌, ◌≤◌, ◌<◌, ◌≡◌, refl, inl, inr, Bool, true, false, List, [], ◌∷◌, ◌++◌, arith, ◌==◌,
  if◌then◌else◌, Bool-cases, length,
}
use kvmux.Admission.Gate.{assign, erase_first, contains}

-- Strictly ascending, from `lo` and below `hi`.
abbrev pub Ascends : ℕ → ℕ → List ℕ → Type 0
Ascends lo hi [] = Unit
Ascends lo hi (x ∷ xs) = (lo ≤ x) × (x < hi) × Ascends (suc x) hi xs

-- Those whose flag is not set, and how many have it set.
abbrev pub ungranted : (ℕ → Bool) → List ℕ → List ℕ
ungranted g [] = []
ungranted g (i ∷ is) = if g i then ungranted g is else i ∷ ungranted g is

abbrev pub pending : (ℕ → Bool) → List ℕ → ℕ
pending g [] = 0
pending g (i ∷ is) = (if g i then 1 else 0) + pending g is

Ascends-down : {k lo : ℕ} (hi : ℕ) (xs : List ℕ) → k ≤ lo → Ascends lo hi xs → Ascends k hi xs
Ascends-down hi [] h a = tt
Ascends-down hi (x ∷ xs) h a = (omega arith, a.1, a.2)

pub Ascends-join :
    (lo hi : ℕ) (xs : List ℕ) → lo ≤ hi → Ascends lo hi xs → Ascends lo (hi + 1) (xs ++ hi ∷ [])
Ascends-join lo hi [] h a = (h, omega arith, tt)
Ascends-join lo hi (x ∷ xs) h a = (a.0, omega arith, Ascends-join (suc x) hi xs (a.1) a.2)

pub erase_first-Ascends :
    (i lo hi : ℕ) (xs : List ℕ) → Ascends lo hi xs → Ascends lo hi (erase_first i xs)
unfolding erase_first
erase_first-Ascends i lo hi [] a = tt
erase_first-Ascends i lo hi (x ∷ xs) a = elim (Bool-cases (x == i)) [
  | inl e ↦ rw e (Ascends-down hi xs (omega (arith, a.0)) a.2)
  | inr e ↦ rw e (a.0, a.1, erase_first-Ascends i (suc x) hi xs a.2)
]

-- A flag written below or above the list does not show in it.
pub assign_above :
    (g : ℕ → Bool) (i : ℕ) (b : Bool) (lo hi : ℕ) (xs : List ℕ)
    → Ascends lo hi xs
    → hi ≤ i
    → (ungranted (assign g i b) xs ≡ ungranted g xs) × (pending (assign g i b) xs ≡ pending g xs)
assign_above g i b lo hi [] a h = (refl, refl)
assign_above g i b lo hi (x ∷ xs) a h = ground (arith, assign_above g i b (suc x) hi xs a.2 h)

pub assign_below :
    (g : ℕ → Bool) (i : ℕ) (b : Bool) (lo hi : ℕ) (xs : List ℕ)
    → Ascends lo hi xs
    → i < lo
    → (ungranted (assign g i b) xs ≡ ungranted g xs) × (pending (assign g i b) xs ≡ pending g xs)
assign_below g i b lo hi [] a h = (refl, refl)
assign_below g i b lo hi (x ∷ xs) a h =
    ground (arith, assign_below g i b (suc x) hi xs a.2 (omega (arith, a.0)))

pub ungranted-join :
    (g : ℕ → Bool) (i : ℕ) (xs : List ℕ)
    → g i ≡ false
    → (ungranted g (xs ++ i ∷ []) ≡ ungranted g xs ++ i ∷ [])
      × (pending g (xs ++ i ∷ []) ≡ pending g xs)
ungranted-join g i [] h = ground arith
ungranted-join g i (x ∷ xs) h = ground (arith, ungranted-join g i xs h)

-- Setting the flag of the first that waits takes it off the queue.
pub grant_first :
    (g : ℕ → Bool) (i : ℕ) (is : List ℕ) (lo hi : ℕ) (xs : List ℕ)
    → Ascends lo hi xs
    → ungranted g xs ≡ i ∷ is
    → (ungranted (assign g i true) xs ≡ is) × (pending (assign g i true) xs ≡ pending g xs + 1)
grant_first g i is lo hi [] a e = cc
grant_first g i is lo hi (x ∷ xs) a e =
    ground (arith, grant_first g i is (suc x) hi xs a.2, assign_below g i true (suc x) hi xs a.2)

-- Taking one out that has been granted its slot, and one that has not.
pub erase_granted :
    (g : ℕ → Bool) (i : ℕ) (xs : List ℕ)
    → contains i xs ≡ true
    → g i ≡ true
    → (ungranted g (erase_first i xs) ≡ ungranted g xs)
      × (pending g (erase_first i xs) + 1 ≡ pending g xs)
unfolding contains erase_first
erase_granted g i [] c h = cc
erase_granted g i (x ∷ xs) c h = ground (arith, erase_granted g i xs)

pub erase_ungranted :
    (g : ℕ → Bool) (i : ℕ) (xs : List ℕ)
    → g i ≡ false
    → (ungranted g (erase_first i xs) ≡ erase_first i (ungranted g xs))
      × (pending g (erase_first i xs) ≡ pending g xs)
unfolding erase_first
erase_ungranted g i [] h = (refl, refl)
erase_ungranted g i (x ∷ xs) h = ground (arith, erase_ungranted g i xs h)

pub length-erase_first : (i : ℕ) (xs : List ℕ) → length (erase_first i xs) ≤ length xs
unfolding erase_first
length-erase_first i [] = omega arith
length-erase_first i (x ∷ xs) = ground (arith, length-erase_first i xs)

pub contains-ungranted :
    (g : ℕ → Bool) (i : ℕ) (xs : List ℕ)
    → contains i xs ≡ true
    → g i ≡ false
    → contains i (ungranted g xs) ≡ true
unfolding contains
contains-ungranted g i [] c h = c
contains-ungranted g i (x ∷ xs) c h = ground (arith, contains-ungranted g i xs)

not_above :
    (g : ℕ → Bool) (i lo hi : ℕ) (xs : List ℕ)
    → Ascends lo hi xs
    → i < lo
    → contains i (ungranted g xs) ≡ false
unfolding contains
not_above g i lo hi [] a h = refl
not_above g i lo hi (x ∷ xs) a h = ground (arith, not_above g i (suc x) hi xs a.2)

pub not_twice :
    (g : ℕ → Bool) (i lo hi : ℕ) (xs : List ℕ)
    → Ascends lo hi xs
    → contains i (erase_first i (ungranted g xs)) ≡ false
unfolding contains erase_first
not_twice g i lo hi [] a = refl
not_twice g i lo hi (x ∷ xs) a =
    ground (arith, not_twice g i (suc x) hi xs a.2, not_above g i (suc x) hi xs a.2)

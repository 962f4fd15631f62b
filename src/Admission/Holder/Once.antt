-- ===== src/Admission/Holder/Once.antt =====
-- Each slot is released exactly once, whatever the moves.
use kvmux.Prelude.{
  ◌==◌, ◌∙◌, ℕ, zero, suc, ◌+◌, ◌<◌, ◌≡◌, refl, ap, ◌≢◌, inl, inr, Bool, false, List, [], ◌∷◌, ◌++◌,
  arith, Bool-cases, length, set,
}
use kvmux.Admission.Holder.{
  move_assign, run, move_construct, held_at, one, held_count, Op, resets, moves, assigns, reset,
  step,
}

held-set :
    (hs : List Bool) (i : ℕ) (b : Bool)
    → i < length hs
    → held_count (set hs i b) + one (held_at hs i) ≡ held_count hs + one b
unfolding held_at
held-set [] i b h = elim h [ ]
held-set (x ∷ hs) zero b h = omega arith
held-set (x ∷ hs) (suc i) b h = omega (arith, held-set hs i b (omega arith))

held-append : (hs : List Bool) (b : Bool) → held_count (hs ++ b ∷ []) ≡ held_count hs + one b
held-append [] b = omega arith
held-append (x ∷ hs) b = omega (arith, held-append hs b)

length-set : (hs : List Bool) (i : ℕ) (b : Bool) → length (set hs i b) ≡ length hs
length-set [] i b = refl
length-set (x ∷ hs) zero b = refl
length-set (x ∷ hs) (suc i) b = ap suc (length-set hs i b)

held_at-set_self : (hs : List Bool) (i : ℕ) (b : Bool) → i < length hs → held_at (set hs i b) i ≡ b
unfolding held_at
held_at-set_self [] i b h = elim h [ ]
held_at-set_self (x ∷ hs) zero b h = refl
held_at-set_self (x ∷ hs) (suc i) b h = held_at-set_self hs i b (omega arith)

held_at-set_ne :
    (hs : List Bool) (i j : ℕ) (b : Bool) → i ≢ j → held_at (set hs i b) j ≡ held_at hs j
unfolding held_at
held_at-set_ne [] i j b n = refl
held_at-set_ne (x ∷ hs) zero zero b n = absurd (n refl)
held_at-set_ne (x ∷ hs) zero (suc j) b n = refl
held_at-set_ne (x ∷ hs) (suc i) zero b n = refl
held_at-set_ne (x ∷ hs) (suc i) (suc j) b n = held_at-set_ne hs i j b (λ e. n (ap suc e))

-- `release`, called `k` times.
abbrev pub released {ℓ} : {R : Type ℓ} → (R → R) → ℕ → R → R
released release zero r = r
released release (suc k) r = release (released release k r)

-- The holders that an operation names are there.
abbrev pub InRange : ℕ → Op → Type 0
InRange n (resets i) = i < n
InRange n (moves i) = i < n
InRange n (assigns i j) = (i < n) × (j < n)

module _ {ℓ} {R : Type ℓ} (release : R → R) where
  abbrev pub AllInRange : R × List Bool → List Op → Type 0
  AllInRange s [] = Unit
  AllInRange s (o ∷ os) = InRange (length s.1) o × AllInRange (step release s o) os

  -- The resource of `t` is that of `s` after some releases, one for each holder that `t` lacks.
  pub record Released (s t : R × List Bool) : Type ℓ where
    pub times : ℕ
    pub resource : t.0 ≡ released release times s.0
    pub balance : times + held_count t.1 ≡ held_count s.1

  reset-Released :
      (r : R) (hs : List Bool) (i : ℕ) → i < length hs → Released (r, hs) (reset release (r, hs) i)
  unfolding reset
  reset-Released r hs i h = elim (Bool-cases (held_at hs i)) [
    | inl e ↦
        rw e
          (record { times = 1; resource = refl; balance = ground (arith, held-set hs i false h) })
    | inr e ↦ rw e (record { times = 0; resource = refl; balance = omega arith })
  ]

  move-Released :
      (r : R) (hs : List Bool) (i : ℕ)
      → i < length hs
      → Released (r, hs) (move_construct release (r, hs) i)
  unfolding move_construct
  move-Released r hs i h = record {
    times = 0;
    resource = refl;
    balance = omega (arith, held-append (set hs i false) (held_at hs i), held-set hs i false h);
  }

  reset_clears :
      (r : R) (hs : List Bool) (i : ℕ)
      → i < length hs
      → (held_at (reset release (r, hs) i).1 i ≡ false)
        × (length (reset release (r, hs) i).1 ≡ length hs)
  unfolding reset
  reset_clears r hs i h = ground (arith, held_at-set_self hs i false h, length-set hs i false)

  swap_balance :
      (hs : List Bool) (i j : ℕ)
      → i ≢ j
      → i < length hs
      → j < length hs
      → held_at hs i ≡ false
      → held_count (set (set hs i (held_at hs j)) j false) ≡ held_count hs
  swap_balance hs i j n h k e =
      let a = held-set hs i (held_at hs j) h in
      let b =
        held-set (set hs i (held_at hs j)) j false
          (omega (arith, length-set hs i (held_at hs j))) in
      let c = held_at-set_ne hs i j (held_at hs j) n in omega (arith, a, b, ap one c, ap one e)

  assign-Released :
      (r : R) (hs : List Bool) (i j : ℕ)
      → i < length hs
      → j < length hs
      → Released (r, hs) (move_assign release (r, hs) i j)
  unfolding move_assign
  assign-Released r hs i j h k = elim (Bool-cases (i == j)) [
    | inl e ↦ rw e (record { times = 0; resource = refl; balance = omega arith })
    | inr e ↦
        let first = reset-Released r hs i h in
        let cleared = reset_clears r hs i h in
        let rest = (reset release (r, hs) i).1 in
        rw e (record {
          times = first.times;
          resource = first.resource;
          balance = omega (
            arith,
            first.balance,
            swap_balance rest i j (ground arith) (omega (arith, cleared.1))
                (omega (arith, cleared.1)) cleared.0,
          );
        })
  ]

  step-Released :
      (s : R × List Bool) (o : Op) → InRange (length s.1) o → Released s (step release s o)
  unfolding step
  step-Released (r, hs) (resets i) h = reset-Released r hs i h
  step-Released (r, hs) (moves i) h = move-Released r hs i h
  step-Released (r, hs) (assigns i j) h = assign-Released r hs i j h.0 h.1

  released-add :
      (m n : ℕ) (r : R) → released release m (released release n r) ≡ released release (m + n) r
  released-add zero n r = let e : 0 + n ≡ n = omega arith in rw e
  released-add (suc m) n r =
      let e : suc m + n ≡ suc (m + n) = omega arith in rw e (ap release (released-add m n r))

  -- Whatever a program does with its holders, moves them, assigns one to another or to itself, resets
  -- them or lets them go out of scope, the resource is released exactly as often as holders are lost:
  -- no slot is released twice and none is forgotten while its holder is gone.
  pub run-Released :
      (s : R × List Bool) (os : List Op) → AllInRange s os → Released s (run release s os)
  unfolding run
  run-Released s [] a = record { times = 0; resource = refl; balance = omega arith }
  run-Released s (o ∷ os) a =
      let one_step = step-Released s o a.0 in
      let later = run-Released (step release s o) os a.1 in
      record {
        times = later.times + one_step.times;
        resource =
            later.resource
            ∙ ap (released release later.times) one_step.resource
            ∙ released-add later.times one_step.times s.0;
        balance = omega (arith, later.balance, one_step.balance);
      }

-- ===== src/Prelude/Result.antt =====
-- The result of code that throws exceptions of one type, for `do` blocks, and postconditions on it.
use mathlib.Core.Path.{◌≡◌, refl, subst}
use mathlib.Core.Bool.{Bool, true, false}

pub data Result {ℓ} (E : Type 0) (A : Type ℓ) : Type ℓ where
  ok : A → Result E A
  err : E → Result E A

infixl 5 ◌>>=◌ ◌>>◌
-- Shut, so that a proof about a `do` block goes by the rule for each step.
unfoldable pub ◌>>=◌ {ℓ κ} :
    {E : Type 0} {A : Type ℓ} {B : Type κ} → Result E A → (A → Result E B) → Result E B
ok a >>= f = f a
err e >>= f = err e

unfoldable pub ◌>>◌ {ℓ} : {E : Type 0} {B : Type ℓ} → Result E (Unit {0}) → Result E B → Result E B
ok a >> k = k
err e >> k = err e

-- An early `throw` behind a test.
abbrev pub throw_if : {E : Type 0} → Bool → E → Result E (Unit {0})
throw_if true e = err e
throw_if false e = ok tt

-- A normal result satisfies `P`.
pub data Ensures {ℓ κ} {E : Type 0} {A : Type ℓ} (P : A → Type κ) : Result E A → Type (ℓ ⊔ κ) where
  holds : {a : A} → P a → Ensures P (ok a)
  thrown : {e : E} → Ensures P (err e)

module _ {ℓ κ} {E : Type 0} {A : Type ℓ} {P : A → Type κ} where
  pub Ensures-ok : {r : Result E A} {a : A} → Ensures P r → r ≡ ok a → P a
  Ensures-ok (holds h) e = subst P (cc) h
  Ensures-ok thrown e = cc

  pub Ensures-bind {ℓ' κ'} :
      {B : Type ℓ'} {Q : B → Type κ'} {r : Result E A} {f : A → Result E B}
      → Ensures P r
      → ((a : A) → P a → Ensures Q (f a))
      → Ensures Q (r >>= f)
  unfolding ◌>>=◌
  Ensures-bind (holds {a} h) k = k a h
  Ensures-bind thrown k = thrown

pub Ensures-then {ℓ κ} :
    {E : Type 0} {B : Type ℓ} {Q : B → Type κ} {r : Result E (Unit {0})} {k : Result E B}
    → (r ≡ ok tt → Ensures Q k)
    → Ensures Q (r >> k)
unfolding ◌>>◌
Ensures-then {r = ok a} h = h refl
Ensures-then {r = err e} h = thrown

-- A step of which nothing need be known.
pub Ensures-any {ℓ ℓ' κ} :
    {E : Type 0} {A : Type ℓ} {B : Type ℓ'} {Q : B → Type κ} (r : Result E A) {f : A → Result E B}
    → ((a : A) → Ensures Q (f a))
    → Ensures Q (r >>= f)
unfolding ◌>>=◌
Ensures-any (ok a) k = k a
Ensures-any (err e) k = thrown

-- An error satisfies `Q`.
pub data Fails {ℓ κ} {E : Type 0} {A : Type ℓ} (Q : E → Type κ) : Result E A → Type (ℓ ⊔ κ) where
  fails : {e : E} → Q e → Fails Q (err e)
  succeeds : {a : A} → Fails Q (ok a)

module _ {ℓ κ} {E : Type 0} {A : Type ℓ} {Q : E → Type κ} where
  pub Fails-err : {r : Result E A} {e : E} → Fails Q r → r ≡ err e → Q e
  Fails-err (fails h) p = subst Q (cc) h
  Fails-err succeeds p = cc

  pub Fails-bind {ℓ'} :
      {B : Type ℓ'} {r : Result E A} {f : A → Result E B}
      → Fails Q r
      → ((a : A) → Fails Q (f a))
      → Fails Q (r >>= f)
  unfolding ◌>>=◌
  Fails-bind (fails h) k = fails h
  Fails-bind (succeeds {a}) k = k a

pub Fails-then {ℓ κ} :
    {E : Type 0} {B : Type ℓ} {Q : E → Type κ} {r : Result E (Unit {0})} {k : Result E B}
    → Fails Q r
    → Fails Q k
    → Fails Q (r >> k)
unfolding ◌>>◌
Fails-then (fails h) k = fails h
Fails-then succeeds k = k

pub Fails-throw_if {κ} :
    {E : Type 0} {Q : E → Type κ} (b : Bool) (e : E) → (b ≡ true → Q e) → Fails Q (throw_if b e)
Fails-throw_if true e h = fails (h refl)
Fails-throw_if false e h = succeeds

pub Fails-because {ℓ κ} :
    {E : Type 0} {A : Type ℓ} {Q : E → Type κ} (r : Result E A)
    → ((e : E) → r ≡ err e → Q e)
    → Fails Q r
Fails-because (ok a) h = succeeds
Fails-because (err e) h = fails (h e refl)

-- Each step with the equation of its result.
pub Fails-steps {ℓ ℓ' κ} :
    {E : Type 0} {A : Type ℓ} {B : Type ℓ'} {Q : E → Type κ} (r : Result E A) {f : A → Result E B}
    → ((e : E) → r ≡ err e → Q e)
    → ((a : A) → r ≡ ok a → Fails Q (f a))
    → Fails Q (r >>= f)
unfolding ◌>>=◌
Fails-steps (ok a) h k = k a refl
Fails-steps (err e) h k = fails (h e refl)

pub Ensures-because {ℓ κ} :
    {E : Type 0} {A : Type ℓ} {P : A → Type κ} (r : Result E A)
    → ((a : A) → r ≡ ok a → P a)
    → Ensures P r
Ensures-because (ok a) h = holds (h a refl)
Ensures-because (err e) h = thrown

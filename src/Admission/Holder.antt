-- ===== src/Admission/Holder.antt =====
-- The RAII holders of src/admission/controller.hpp: `BackendSlot` over a limiter and `Ticket` over the
-- gate have the same members. A holder is a pointer that is null or not, here a Bool; all the
-- holders of one resource are a list, and an index is the holder's address.
pub mod Once
use kvmux.Prelude.{
  ℕ, zero, suc, ◌+◌, Bool, true, false, List, [], ◌∷◌, ◌++◌, ◌==◌, if◌then◌else◌, set,
}

-- The value of a pointer in the list; there is none out of range.
unfoldable pub held_at : List Bool → ℕ → Bool
held_at [] i = false
held_at (h ∷ hs) zero = h
held_at (h ∷ hs) (suc i) = held_at hs i

abbrev pub one : Bool → ℕ
one true = 1
one false = 0

abbrev pub held_count : List Bool → ℕ
held_count [] = 0
held_count (h ∷ hs) = one h + held_count hs

-- What a program does with its holders.
pub data Op : Type 0 where
  resets : ℕ → Op
  moves : ℕ → Op
  assigns : ℕ → ℕ → Op

module _ {ℓ} {R : Type ℓ} (release : R → R) where
  -- The resource with its holders.
  abbrev pub Holders : Type ℓ
  Holders = R × List Bool

  -- `reset`, and the destructor.
  unfoldable pub reset : Holders → ℕ → Holders
  reset (r, hs) i = if held_at hs i then (release r, set hs i false) else (r, hs)

  -- The move constructor: a new holder at the end takes the pointer of holder `i`.
  unfoldable pub move_construct : Holders → ℕ → Holders
  move_construct (r, hs) i = (r, set hs i false ++ held_at hs i ∷ [])

  -- `operator=`: holder `i` is assigned from holder `j`.
  unfoldable pub move_assign : Holders → ℕ → ℕ → Holders
  unfolding reset
  move_assign s i j =
      if i == j then s else let (r, hs) = reset s i in (r, set (set hs i (held_at hs j)) j false)

  unfoldable pub step : Holders → Op → Holders
  unfolding move_construct move_assign
  step s (resets i) = reset s i
  step s (moves i) = move_construct s i
  step s (assigns i j) = move_assign s i j

  unfoldable pub run : Holders → List Op → Holders
  run s [] = s
  run s (o ∷ os) = run (step s o) os

-- ===== src/Routing/Canonical.antt =====
-- `canonical_affinity_string` of src/routing/prefix_affinity.cpp. The budget is an `int`.
use mathlib.Core.List.{append-nil, append_assoc}
use kvmux.Prelude.Int.{ℤ, pos, negsuc}
use kvmux.Prelude.{
  ℕ, zero, suc, ◌-◌, ◌≤◌, ◌≡◌, refl, sym, ap, ◌∙◌, true, false, List, [], ◌∷◌, ◌++◌, arith, dec_le,
  leb, if◌then◌else◌, le→leb, length, take, length-take, take-append, Bytes,
}

abbrev pub budget_of : ℤ → ℕ
budget_of (pos n) = n
budget_of (negsuc n) = 0

-- The lambda `append_capped`.
append_capped : ℕ → Bytes → Bytes → Bytes
append_capped budget out s =
    if leb budget (length out) then out else out ++ take (budget - length out) s

-- The loop over the messages, with its `break`.
append_messages : ℕ → Bytes → List (Bytes × Bytes) → Bytes
append_messages budget out [] = out
append_messages budget out ((role, content) ∷ msgs) =
    let a = append_capped budget out role in
    let b = append_capped budget a (b':' ∷ []) in
    let rest = append_messages budget (append_capped budget b content) msgs in
    if leb budget (length out) then out else rest

unfoldable pub canonical_affinity_string : Bytes → List (Bytes × Bytes) → ℤ → Bytes
unfolding append_capped append_messages
canonical_affinity_string model msgs prefix_bytes =
    let budget = budget_of prefix_bytes in
    let a = append_capped budget [] model in
    let b = append_capped budget a (0x1f ∷ []) in append_messages budget b msgs

-- The whole canonical string, with no budget.
abbrev pub flat : List (Bytes × Bytes) → Bytes
flat [] = []
flat ((role, content) ∷ msgs) = role ++ (b':' ∷ (content ++ flat msgs))

abbrev pub canonical : Bytes → List (Bytes × Bytes) → Bytes
canonical model msgs = model ++ (0x1f ∷ flat msgs)

pub take-over : (n : ℕ) (xs ys : Bytes) → n ≤ length xs → take n (xs ++ ys) ≡ take n xs
take-over n xs ys h =
    let e : n - length xs ≡ 0 = omega arith in take-append n xs ys ∙ rw (e, append-nil)

take_all : (n : ℕ) (xs : Bytes) → length xs ≤ n → take n xs ≡ xs
take_all zero [] h = refl
take_all zero (x ∷ xs) h = elim h [ ]
take_all (suc n) [] h = refl
take_all (suc n) (x ∷ xs) h = ap (◌∷◌ x) (take_all n xs (omega arith))

take_all_nil : (n : ℕ) → take {A = ℕ} n [] ≡ []
take_all_nil zero = refl
take_all_nil (suc n) = refl

append_capped_lem :
    (n : ℕ) (whole s : Bytes) → append_capped n (take n whole) s ≡ take n (whole ++ s)
unfolding append_capped
append_capped_lem n whole s = elim (dec_le n (length whole)) [
  | yes h ↦
      let full : leb n (length (take n whole)) ≡ true =
        le→leb n (length (take n whole)) (omega (arith, length-take n whole)) in
      rw full (sym (take-over n whole s h))
  | no h ↦
      let e : take n whole ≡ whole = take_all n whole (omega arith) in
      let room : leb n (length whole) ≡ false = ground arith in
      rw (e, room) (sym (take-append n whole s ∙ rw e))
]

append_messages_lem :
    (n : ℕ) (whole : Bytes) (msgs : List (Bytes × Bytes))
    → append_messages n (take n whole) msgs ≡ take n (whole ++ flat msgs)
unfolding append_messages
append_messages_lem n whole [] = rw append-nil
append_messages_lem n whole ((role, content) ∷ msgs) = elim (dec_le n (length whole)) [
  | yes h ↦
      let full : leb n (length (take n whole)) ≡ true =
        le→leb n (length (take n whole)) (omega (arith, length-take n whole)) in
      rw full (sym (take-over n whole (flat ((role, content) ∷ msgs)) h))
  | no h ↦
      let room : leb n (length (take n whole)) ≡ false =
        let e = length-take n whole in ground arith in
      rw (room, append_capped_lem n whole role)
        (rw (append_capped_lem n (whole ++ role) (b':' ∷ [])) (
          rw (append_capped_lem n ((whole ++ role) ++ (b':' ∷ [])) content) (
            append_messages_lem n (((whole ++ role) ++ (b':' ∷ [])) ++ content) msgs
            ∙ ap (take n) (simp append_assoc))))
]

-- The budgeted construction gives the first `prefix_bytes` bytes of the whole canonical string, and
-- nothing if `prefix_bytes` is not positive.
pub canonical_affinity_string_lem :
    (model : Bytes) (msgs : List (Bytes × Bytes)) (prefix_bytes : ℤ)
    → canonical_affinity_string model msgs prefix_bytes
      ≡ take (budget_of prefix_bytes) (canonical model msgs)
unfolding canonical_affinity_string
canonical_affinity_string_lem model msgs prefix_bytes =
    let n = budget_of prefix_bytes in
    let start : append_capped n [] model ≡ take n model =
      ap (λ (x : Bytes). append_capped n x model) (sym (take_all_nil n))
      ∙ append_capped_lem n [] model in
    rw (start, append_capped_lem n model (0x1f ∷ []))
      (append_messages_lem n (model ++ (0x1f ∷ [])) msgs
        ∙ ap (take n) (append_assoc model (0x1f ∷ []) (flat msgs)))

-- ===== src/Server/Gateway/Dispatches.antt =====
-- At which backends the walk of `handle_chat` dispatches.
use kvmux.Prelude.{
  ◌+◌, ◌≤◌, ◌≡◌, refl, sym, ap, ◌∙◌, ◌⊎◌, inl, inr, Bool, not, ◌&&◌, Option, List, [], ◌∷◌, ◌++◌,
  arith, ltb, leb, Bool-cases, either, either_some, length, get_elem?, ℕ, is_empty,
}
use mathlib.Core.List.{append_assoc, append-nil}
use kvmux.Health.Breaker.{CircuitBreaker, Decision, allow_request}
use kvmux.Admission.Limiter.{try_acquire}
use kvmux.Server.Gateway.{Backend}
use kvmux.Server.Gateway.Attempt.{Render, Reply}
use kvmux.Server.Gateway.Walk.{
  Round, Walk, Request, record_spills, conclude, dispatch, admit, visit, walk,
}
use kvmux.Server.Gateway.Chat.{walk0}

-- The first list is what is left of the second when some of its elements are dropped.
pub data IsSubseq : List ℕ → List ℕ → Type 0 where
  done : IsSubseq [] []
  kept : {xs ys : List ℕ} (x : ℕ) → IsSubseq xs ys → IsSubseq (x ∷ xs) (x ∷ ys)
  dropped : {xs ys : List ℕ} (y : ℕ) → IsSubseq xs ys → IsSubseq xs (y ∷ ys)

none_of : (ys : List ℕ) → IsSubseq [] ys
none_of [] = done
none_of (y ∷ ys) = dropped y (none_of ys)

-- What a visit of backend `i` makes of the record of attempts.
abbrev Visited : ℕ → Walk → Walk → Type 0
Visited i w w' =
    ((w'.attempts ≡ w.attempts) × (w'.dispatched ≡ w.dispatched))
    ⊎ ((w'.attempts ≡ w.attempts + 1) × (w'.dispatched ≡ w.dispatched ++ i ∷ []))

-- What the rest of a walk makes of it.
abbrev Walked : List ℕ → Walk → Walk → Type 0
Walked is w w' =
    (ds : List ℕ) × IsSubseq ds is
    × (w'.dispatched ≡ w.dispatched ++ ds)
    × (w'.attempts ≡ w.attempts + length ds)
    × (w.attempts ≤ 2 → w'.attempts ≤ 2)

stays : (is : List ℕ) (w : Walk) → Walked is w w
stays is w = ([], none_of is, sym (append-nil w.dispatched), omega arith, λ h. h)

joins :
    (i : ℕ) (is : List ℕ) (w w' w'' : Walk)
    → w.attempts ≤ 1
    → Visited i w w'
    → Walked is w' w''
    → Walked (i ∷ is) w w''
joins i is w w' w'' small (inl (a, d)) (ds, sub, e, n, m) =
    (ds, dropped i sub, rw⁻¹ d e, rw⁻¹ a n, λ _. m (omega (arith, a, small)))
joins i is w w' w'' small (inr (a, d)) (ds, sub, e, n, m) = (
  i ∷ ds,
  kept i sub,
  e ∙ ap (λ x. x ++ ds) d ∙ append_assoc w.dispatched (i ∷ []) ds,
  omega (arith, a, n),
  λ _. m (omega (arith, a, small)),
)

module _ (js : Render) (req : Request) where
  admit-Visited :
      (i : ℕ) (b : Backend) (breaker : CircuitBreaker) (dec : Decision) (r : Round) (more : Bool)
      (w : Walk)
      → Visited i w (admit js req i b (breaker, dec) r more w).0
  unfolding admit dispatch conclude
  admit-Visited i b breaker dec r more w =
      either (λ (x : Walk × Option Reply). Visited i w x.0) (not dec.allowed) (inl (refl, refl))
        (either (λ (x : Walk × Option Reply). Visited i w x.0) (try_acquire b.limiter).1
          (inr (refl, refl)) (inl (refl, refl)))

  same_after_spills :
      (b : Backend) (w : Walk)
      → ((record_spills req b w).attempts ≡ w.attempts)
        × ((record_spills req b w).dispatched ≡ w.dispatched)
  unfolding record_spills
  same_after_spills b w =
      either (λ (x : Walk). (x.attempts ≡ w.attempts) × (x.dispatched ≡ w.dispatched))
        (is_empty w.spilled && ltb 0 req.spills) (refl, refl) (refl, refl)

  visit-Visited :
      (i : ℕ) (r : Round) (more : Bool) (w : Walk) → Visited i w (visit js req i r more w).0
  unfolding visit
  visit-Visited i r more w =
      either_some (λ (x : Walk × Option Reply). Visited i w x.0) (get_elem? w.backends i)
        (inl (refl, refl))
        (λ b.
          let (e1, e2) = same_after_spills b w in
          elim (admit-Visited i b (allow_request b.breaker r.asked).0
            (allow_request b.breaker r.asked).1 r more (record_spills req b w)) [
              | inl (a, d) ↦ inl (a ∙ e1, d ∙ e2)
              | inr (a, d) ↦ inr (a ∙ ap (λ n. n + 1) e1, d ∙ ap (λ ds. ds ++ i ∷ []) e2)
            ])

  walk-Walked :
      (rounds : ℕ → Round) (pos : ℕ) (is : List ℕ) (w : Walk)
      → Walked is w (walk js req rounds pos is w).0
  unfolding walk
  walk-Walked rounds pos [] w = ([], done, sym (append-nil w.dispatched), omega arith, λ h. h)
  walk-Walked rounds pos (i ∷ is) w =
      let w' = (visit js req i (rounds pos) (not (is_empty is)) w).0 in
      let first = visit-Visited i (rounds pos) (not (is_empty is)) w in
      let later = walk-Walked rounds (pos + 1) is w' in
      elim (Bool-cases (leb 2 w.attempts)) [
        | inl e ↦ rw e (stays (i ∷ is) w)
        | inr e ↦
            let small : w.attempts ≤ 1 = ground arith in
            rw e (
              either_some (λ (x : Walk × Option Reply). Walked (i ∷ is) w x.0)
                (visit js req i (rounds pos) (not (is_empty is)) w).1
                (joins i is w w' (walk js req rounds (pos + 1) is w').0 small first later)
                (λ _. joins i is w w' w' small first (stays is w')))
      ]

  -- The walk dispatches to at most two backends, in the order of the policy and to none of them twice
  -- where the order lists none twice.
  pub walk-IsSubseq :
      (rounds : ℕ → Round) (order : List ℕ) (bs : List Backend)
      → IsSubseq (walk js req rounds 0 order (walk0 bs)).0.dispatched order
        × (length (walk js req rounds 0 order (walk0 bs)).0.dispatched ≤ 2)
  walk-IsSubseq rounds order bs =
      let (ds, sub, e, n, m) = walk-Walked rounds 0 order (walk0 bs) in
      (rw e sub, rw e (omega (arith, n, m (omega arith))))

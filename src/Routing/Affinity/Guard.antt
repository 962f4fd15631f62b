-- ===== src/Routing/Affinity/Guard.antt =====
-- What the load guard does to the ranking.
use mathlib.Core.List.Perm
use mathlib.Core.List.{Perm, perm_middle, map-map}
use kvmux.Prelude.{
  ℕ, suc, ◌≡◌, refl, ap, ◌≢◌, inl, inr, Bool, true, false, none, some, List, [], ◌∷◌, ◌++◌, map,
  Bool-cases, length, get_elem?, All, Bytes,
}
use kvmux.Prelude.Double.{Double}
use kvmux.Routing.{Candidate, RouteRequest}
use kvmux.Routing.Hrw.{hrw_rank, Scored, scored}
use kvmux.Routing.Hrw.Sorted.{sort-perm}
use kvmux.Routing.Affinity.{guard_head, skip_at, place_head, overloaded, order}

-- The ranking is some overloaded winners, then the first that is not overloaded, then the rest; or all
-- are overloaded.
pub data Split (over : ℕ → Bool) (rank : List ℕ) (placed : List ℕ) (spills : ℕ) : Type 0 where
  chosen :
      (spilled rest : List ℕ) (head : ℕ)
      → rank ≡ spilled ++ (head ∷ rest)
      → All (λ i. over i ≡ true) spilled
      → over head ≡ false
      → placed ≡ head ∷ (spilled ++ rest)
      → spills ≡ length spilled
      → Split over rank placed spills
  all_over :
      All (λ i. over i ≡ true) rank
      → placed ≡ rank
      → spills ≡ length rank
      → Split over rank placed spills

get_elem?-past : (xs : List ℕ) → get_elem? xs (length xs) ≡ none
get_elem?-past [] = refl
get_elem?-past (x ∷ xs) = get_elem?-past xs

get_elem?-middle :
    (xs : List ℕ) (y : ℕ) (ys : List ℕ) → get_elem? (xs ++ (y ∷ ys)) (length xs) ≡ some y
get_elem?-middle [] y ys = refl
get_elem?-middle (x ∷ xs) y ys = get_elem?-middle xs y ys

skip_at-middle :
    (xs : List ℕ) (y : ℕ) (ys : List ℕ) → skip_at (length xs) (xs ++ (y ∷ ys)) ≡ xs ++ ys
unfolding skip_at
skip_at-middle [] y ys = refl
skip_at-middle (x ∷ xs) y ys = ap (◌∷◌ x) (skip_at-middle xs y ys)

module _ (over : ℕ → Bool) where
  guard_head-All : (xs : List ℕ) → All (λ i. over i ≡ true) xs → guard_head over xs ≡ length xs
  unfolding guard_head
  guard_head-All [] a = refl
  guard_head-All (x ∷ xs) a = rw (a.0) (ap suc (guard_head-All xs a.1))

  guard_head-middle :
      (xs : List ℕ) (y : ℕ) (ys : List ℕ)
      → All (λ i. over i ≡ true) xs
      → over y ≡ false
      → guard_head over (xs ++ (y ∷ ys)) ≡ length xs
  unfolding guard_head
  guard_head-middle [] y ys a h = rw h
  guard_head-middle (x ∷ xs) y ys a h = rw (a.0) (ap suc (guard_head-middle xs y ys a.1 h))

  place_head-All :
      (xs : List ℕ) → All (λ i. over i ≡ true) xs → place_head xs (guard_head over xs) ≡ xs
  unfolding place_head
  place_head-All xs a = rw (guard_head-All xs a, place_head, get_elem?-past xs)

  place_head-middle :
      (xs : List ℕ) (y : ℕ) (ys : List ℕ)
      → All (λ i. over i ≡ true) xs
      → over y ≡ false
      → place_head (xs ++ (y ∷ ys)) (guard_head over (xs ++ (y ∷ ys))) ≡ y ∷ (xs ++ ys)
  unfolding place_head
  place_head-middle xs y ys a h = rw (
    guard_head-middle xs y ys a h,
    place_head,
    get_elem?-middle xs y ys,
    guard_head-middle xs y ys a h,
    skip_at-middle xs y ys,
  )

  -- A list begins with overloaded ones up to the first that is not, if there is one.
  data Lead (rank : List ℕ) : Type 0 where
    up_to :
        (spilled rest : List ℕ) (head : ℕ)
        → rank ≡ spilled ++ (head ∷ rest)
        → All (λ i. over i ≡ true) spilled
        → over head ≡ false
        → Lead rank
    throughout : All (λ i. over i ≡ true) rank → Lead rank

  Lead-cons : (i : ℕ) (is : List ℕ) → over i ≡ true → Lead is → Lead (i ∷ is)
  Lead-cons i is e (up_to spilled rest head split a h) =
      up_to (i ∷ spilled) rest head (ap (◌∷◌ i) split) (e, a) h
  Lead-cons i is e (throughout a) = throughout (e, a)

  lead : (rank : List ℕ) → Lead rank
  lead [] = throughout tt
  lead (i ∷ is) = elim (Bool-cases (over i)) [
    | inl e ↦ Lead-cons i is e (lead is)
    | inr e ↦ up_to [] is i refl tt e
  ]

  Lead-Split :
      {rank : List ℕ}
      → Lead rank
      → Split over rank (place_head rank (guard_head over rank)) (guard_head over rank)
  Lead-Split (up_to spilled rest head split a h) =
      chosen spilled rest head split a h (rw split (place_head-middle spilled head rest a h))
        (rw split (guard_head-middle spilled head rest a h))
  Lead-Split {rank} (throughout a) = all_over a (place_head-All rank a) (guard_head-All rank a)

  pub guard_head-Split :
      (rank : List ℕ)
      → Split over rank (place_head rank (guard_head over rank)) (guard_head over rank)
  guard_head-Split rank = Lead-Split (lead rank)

Split-perm :
    {over : ℕ → Bool} {rank placed : List ℕ} {spills : ℕ}
    → Split over rank placed spills
    → Perm placed rank
Split-perm (chosen spilled rest head split a h placed_is n) =
    rw (split, placed_is) (Perm.symm (perm_middle spilled rest))
Split-perm {rank} (all_over a placed_is n) = rw placed_is (Perm.refl rank)

module _ (fp : Double) (xxh64 : Bytes → ℕ) (load_threshold : Double.Value fp) where
  -- For a list of candidates that is not empty: the head of the order is the best-ranked candidate whose
  -- load is under the threshold; the better-ranked ones that were skipped are counted as the spills
  -- and follow it in rank order, then the rest. If all are overloaded the order is the ranking itself, and
  -- the spills are all of them.
  pub order-Split :
      (req : RouteRequest) (cs : List Candidate)
      → cs ≢ []
      → Split
          (overloaded fp xxh64 load_threshold cs)
          (hrw_rank xxh64 (xxh64 req.affinity_key) cs)
          (order fp xxh64 load_threshold req cs).order
          (order fp xxh64 load_threshold req cs).spills
  unfolding order
  order-Split req [] h = absurd (h refl)
  order-Split req (c ∷ cs) h = guard_head-Split (overloaded fp xxh64 load_threshold (c ∷ cs)) _

  ranked_perm :
      (key : ℕ) (cs : List Candidate) → Perm (hrw_rank xxh64 key cs) (map (λ c. c.backend_index) cs)
  unfolding hrw_rank
  ranked_perm key cs =
      rw (← map-map (λ (s : Scored). s.backend_index) (scored xxh64 key) cs)
        (Perm.map _ (sort-perm (map (scored xxh64 key) cs)))

  -- Affinity routing neither drops nor repeats a candidate: the order is a permutation of the indices of
  -- the candidates, so every one of them is there to fail over to.
  pub order-perm :
      (req : RouteRequest) (cs : List Candidate)
      → Perm (order fp xxh64 load_threshold req cs).order (map (λ c. c.backend_index) cs)
  unfolding order
  order-perm req [] = Perm.refl []
  order-perm req (c ∷ cs) =
      Perm.trans (Split-perm (order-Split req (c ∷ cs) (λ e. cc)))
        (ranked_perm (xxh64 req.affinity_key) (c ∷ cs))

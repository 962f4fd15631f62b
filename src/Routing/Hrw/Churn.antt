-- ===== src/Routing/Hrw/Churn.antt =====
-- What becomes of the ranking when candidates go, as when a backend is no longer healthy.
use kvmux.Prelude.{
  ℕ, ◌≡◌, refl, sym, ap, ◌∙◌, inl, inr, Bool, false, List, [], ◌∷◌, map, arith, if◌then◌else◌,
  Bool-cases, All, Bytes,
}
use kvmux.Routing.{Candidate}
use kvmux.Routing.Hrw.{Scored, before, insert, sort, scored, hrw_rank}
use kvmux.Routing.Hrw.Sorted.{IsSorted, All-not_before, sort-IsSorted}

abbrev pub keep_if {ℓ} : {A : Type ℓ} → (A → Bool) → List A → List A
keep_if p [] = []
keep_if p (x ∷ xs) = if p x then x ∷ keep_if p xs else keep_if p xs

module _ (p : Scored → Bool) where
  insert_first :
      (x : Scored) (ys : List Scored)
      → All (λ y. before y x ≡ false) ys
      → insert x (keep_if p ys) ≡ x ∷ keep_if p ys
  unfolding insert
  insert_first x [] a = refl
  insert_first x (y ∷ ys) a = ground (arith, insert_first x ys a.1)

  keep-insert :
      (x : Scored) (ys : List Scored)
      → IsSorted ys
      → keep_if p (insert x ys) ≡ (if p x then insert x (keep_if p ys) else keep_if p ys)
  unfolding insert
  keep-insert x [] s = refl
  keep-insert x (y ∷ ys) s =
      ground (arith, keep-insert x ys s.1, insert_first x ys, All-not_before x y ys, s.0)

  keep-sort : (xs : List Scored) → keep_if p (sort xs) ≡ sort (keep_if p xs)
  unfolding sort
  keep-sort [] = refl
  keep-sort (x ∷ xs) = ground (arith, keep-insert x (sort xs) (sort-IsSorted xs), keep-sort xs)

keep-map {ℓ κ} :
    {A : Type ℓ} {B : Type κ} (f : A → B) (p : B → Bool) (xs : List A)
    → keep_if p (map f xs) ≡ map f (keep_if (λ x. p (f x)) xs)
keep-map f p [] = refl
keep-map f p (x ∷ xs) = elim (Bool-cases (p (f x))) [
  | inl e ↦ rw e (ap (◌∷◌ (f x)) (keep-map f p xs))
  | inr e ↦ rw e (keep-map f p xs)
]

-- Minimal reshuffle: when backends drop out, the ranking of those that stay is the old ranking with
-- the others left out. So a key whose best backend stays keeps it, whatever the hash.
pub hrw_rank-keep_if :
    (xxh64 : Bytes → ℕ) (key : ℕ) (stays : ℕ → Bool) (cs : List Candidate)
    → hrw_rank xxh64 key (keep_if (λ c. stays c.backend_index) cs)
      ≡ keep_if stays (hrw_rank xxh64 key cs)
unfolding hrw_rank
hrw_rank-keep_if xxh64 key stays cs =
    let kept = λ (s : Scored). stays s.backend_index in
    ap (λ (l : List Scored). map (λ s. s.backend_index) (sort l))
      (sym (keep-map (scored xxh64 key) kept cs))
    ∙ ap (map (λ (s : Scored). s.backend_index)) (sym (keep-sort kept (map (scored xxh64 key) cs)))
    ∙ sym (keep-map (λ (s : Scored). s.backend_index) stays (sort (map (scored xxh64 key) cs)))

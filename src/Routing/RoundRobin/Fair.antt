-- ===== src/Routing/RoundRobin/Fair.antt =====
-- The rotation, as long as the cursor does not wrap within one pass over the candidates.
use native.Mathlib.Nat.{mod-lt, mod-eq_of_lt, mod-add-mod, mod-eq-sub-mod}
use mathlib.Core.Path.{ap₂}
use kvmux.Prelude.{
  ℕ, zero, suc, ◌+◌, ◌-◌, ◌%◌, ◌≤◌, ◌<◌, ◌≡◌, refl, sym, ap, ◌∙◌, ◌≢◌, List, [], ◌∷◌, ◌++◌, map,
  arith, length, take, drop, length-map,
}
use kvmux.Routing.{Candidate, RouteRequest}
use kvmux.Routing.RoundRobin.{RoundRobin, u64_mod, index_at, collect, order}

abbrev pub indices : List Candidate → List ℕ
indices = map λ c. c.backend_index

collect-add : (f : ℕ → ℕ) (i a b : ℕ) → collect f i (a + b) ≡ collect f i a ++ collect f (i + a) b
unfolding collect
collect-add f i zero b =
    let e : zero + b ≡ b = omega arith in let e' : i + 0 ≡ i = omega arith in rw (e, e')
collect-add f i (suc a) b =
    let e : suc a + b ≡ suc (a + b) = omega arith in
    let e' : i + 1 + a ≡ i + suc a = omega arith in
    rw (e, collect) (ap (◌∷◌ (f i)) (collect-add f (i + 1) a b ∙ rw e'))

drop-index_at :
    (p : ℕ) (cs : List Candidate)
    → p < length cs
    → drop p (indices cs) ≡ index_at cs p ∷ drop (suc p) (indices cs)
drop-index_at p [] h = elim h [ ]
drop-index_at zero (c ∷ cs) h = refl
drop-index_at (suc p) (c ∷ cs) h = drop-index_at p cs (omega arith)

-- A run of `k` places from `p` on.
collect-slice :
    (f : ℕ → ℕ) (i k p : ℕ) (cs : List Candidate)
    → ((j : ℕ) → j < k → f (i + j) ≡ index_at cs (p + j))
    → p + k ≤ length cs
    → collect f i k ≡ take k (drop p (indices cs))
unfolding collect
collect-slice f i zero p cs h le = refl
collect-slice f i (suc k) p cs h le =
    let e : i + 0 ≡ i = omega arith in
    let e' : p + 0 ≡ p = omega arith in
    let first : f i ≡ index_at cs p = ap f (sym e) ∙ h 0 (omega arith) ∙ ap (index_at cs) e' in
    rw (drop-index_at p cs (omega arith), first)
      (ap (◌∷◌ (index_at cs p)) (
        collect-slice f (i + 1) k (suc p) cs
          (λ j l.
            let a : i + 1 + j ≡ i + suc j = omega arith in
            let b : suc p + j ≡ p + suc j = omega arith in
            ap f a ∙ h (suc j) (omega arith) ∙ ap (index_at cs) (sym b))
          (omega arith)))

module _ (m start n i : ℕ) (positive : 0 < n) (in_range : start + n ≤ m) (inside : i < n) where
  unwrapped : (start + i) % m % n ≡ (start % n + i) % n
  unwrapped = rw (mod-eq_of_lt {n = start + i} {m = m} (omega arith)) (sym (mod-add-mod start n i))

  before_end : start % n + i < n → (start + i) % m % n ≡ start % n + i
  before_end h = unwrapped ∙ mod-eq_of_lt h

  past_end : n ≤ start % n + i → (start + i) % m % n ≡ start % n + i - n
  past_end h =
      unwrapped ∙ mod-eq-sub-mod h ∙ mod-eq_of_lt (let l = mod-lt start positive in omega arith)

take_all : (n : ℕ) (xs : List ℕ) → length xs ≤ n → take n xs ≡ xs
take_all zero [] h = refl
take_all zero (x ∷ xs) h = elim h [ ]
take_all (suc n) [] h = refl
take_all (suc n) (x ∷ xs) h = ap (◌∷◌ x) (take_all n xs (omega arith))

length-drop : (n : ℕ) (xs : List ℕ) → length (drop n xs) ≡ length xs - n
length-drop zero xs = omega arith
length-drop (suc n) [] = omega arith
length-drop (suc n) (x ∷ xs) = omega (arith, length-drop n xs)

-- The loop of `order` for a modulus `m`, on a list that is not empty.
collect-rotation :
    (m start : ℕ) (cs : List Candidate)
    → 0 < length cs
    → start + length cs ≤ m
    → collect (λ i. index_at cs ((start + i) % m % length cs)) 0 (length cs)
      ≡ drop (start % length cs) (indices cs) ++ take (start % length cs) (indices cs)
collect-rotation m start cs h w =
    let n = length cs in
    let s = start % n in
    let f : ℕ → ℕ = λ i. index_at cs ((start + i) % m % n) in
    let l = mod-lt start h in
    let whole : collect f 0 n ≡ collect f 0 (n - s + s) =
      ap (collect f 0) (let e : n ≡ n - s + s = omega arith in e) in
    let tail_first : collect f 0 (n - s) ≡ take (n - s) (drop s (indices cs)) =
      collect-slice f 0 (n - s) s cs
        (λ j k.
          let e : 0 + j ≡ j = omega arith in
          ap f e ∙ ap (index_at cs) (before_end m start n j h w (omega arith) (omega arith)))
        (omega arith) in
    let head_last : collect f (0 + (n - s)) s ≡ take s (drop 0 (indices cs)) =
      collect-slice f (0 + (n - s)) s 0 cs
        (λ j k.
          let e : s + (0 + (n - s) + j) - n ≡ 0 + j = omega arith in
          ap (index_at cs)
            (past_end m start n (0 + (n - s) + j) h w (omega arith) (omega arith) ∙ e))
        (omega arith) in
    let all : take (n - s) (drop s (indices cs)) ≡ drop s (indices cs) =
      take_all (n - s) (drop s (indices cs)) (
        omega (
          arith,
          length-drop s (indices cs),
          length-map cs (λ (c : Candidate). c.backend_index),
        )) in
    whole ∙ collect-add f 0 (n - s) s ∙ ap₂ ◌++◌ (tail_first ∙ all) head_last

-- Round robin lists every candidate once, in the order of the candidates from the place where the
-- cursor stands, as long as the 64-bit cursor does not wrap during this pass; it counts no spill, and
-- moves the cursor on by one.
pub order-rotation :
    (rr : RoundRobin) (req : RouteRequest) (cs : List Candidate)
    → cs ≢ []
    → rr.cursor + length cs ≤ u64_mod
    → ((order rr req cs).1.order
        ≡ drop (rr.cursor % length cs) (indices cs) ++ take (rr.cursor % length cs) (indices cs))
      × ((order rr req cs).1.spills ≡ 0)
      × ((order rr req cs).0.cursor ≡ (rr.cursor + 1) % u64_mod)
unfolding order
order-rotation rr req [] h w = absurd (h refl)
order-rotation rr req (c ∷ cs) h w =
    (collect-rotation u64_mod rr.cursor (c ∷ cs) (omega arith) w, refl, refl)

-- ===== src/Metrics/Histogram/Counts.antt =====
-- What the buckets of a histogram count.
use kvmux.Prelude.{
  ◌+◌, ◌%◌, ◌^◌, ◌≤◌, ◌<◌, ◌≡◌, refl, ap, ◌∙◌, inl, inr, Bool, true, false, List, [], ◌∷◌, map,
  arith, if◌then◌else◌, Bool-cases, length, replicate, ℕ,
}
use kvmux.Prelude.Double.{Double}
use kvmux.Metrics.Histogram.{bump, Histogram, new, count_in, observe, observe_all}

bump_mod : (n : ℕ) → bump (n % 2 ^ 64) ≡ (n + 1) % 2 ^ 64
bump_mod n = omega arith

map-ext {ℓ} :
    {A : Type ℓ} (f g : A → ℕ) → ((a : A) → f a ≡ g a) → (xs : List A) → map f xs ≡ map g xs
map-ext f g e [] = refl
map-ext f g e (x ∷ xs) = cc (e x, map-ext f g e xs)

map-zero {ℓ} : {A : Type ℓ} (xs : List A) → replicate (length xs) 0 ≡ map (λ x. 0 % 2 ^ 64) xs
map-zero [] = refl
map-zero (x ∷ xs) = ap (◌∷◌ 0) (map-zero xs)

-- Each count is at most the next, the last at most the total.
abbrev pub IsCumulative : List ℕ → ℕ → Type 0
IsCumulative [] total = Unit
IsCumulative (c ∷ []) total = (c ≤ total) × Unit
IsCumulative (c ∷ (d ∷ cs)) total = (c ≤ d) × IsCumulative (d ∷ cs) total

module _ (fp : Double) where
  abbrev Value : Type 0
  Value = Double.Value fp

  abbrev one_if : Bool → ℕ
  one_if true = 1
  one_if false = 0

  -- How many of the values are at most the bound.
  abbrev pub at_most : Value → List Value → ℕ
  at_most b [] = 0
  at_most b (v ∷ vs) = one_if (fp.le v b) + at_most b vs

  count_one :
      (n : ℕ) (t : Bool) → (if t then bump (n % 2 ^ 64) else n % 2 ^ 64) ≡ (n + one_if t) % 2 ^ 64
  count_one n true = bump_mod n
  count_one n false = omega arith

  count_in-map :
      (f : Value → ℕ) (bs : List Value) (v : Value)
      → count_in fp bs (map (λ b. f b % 2 ^ 64) bs) v
        ≡ map (λ b. (f b + one_if (fp.le v b)) % 2 ^ 64) bs
  unfolding count_in
  count_in-map f [] v = refl
  count_in-map f (b ∷ bs) v = cc (count_one (f b) (fp.le v b), count_in-map f bs v)

  -- The histogram in which `f` gives each bucket's count and `n` the total.
  abbrev seen : (Value → ℕ) → ℕ → List Value → Value → Histogram fp
  seen f n bs s = record {
    bounds = bs;
    counts = map (λ b. f b % 2 ^ 64) bs;
    total_count = n % 2 ^ 64;
    sum = s;
  }

  observe-seen :
      (f : Value → ℕ) (n : ℕ) (bs : List Value) (s v : Value)
      → observe fp (seen f n bs s) v ≡ seen (λ b. f b + one_if (fp.le v b)) (n + 1) bs (fp.add s v)
  unfolding observe
  observe-seen f n bs s v = cc (count_in-map f bs v, bump_mod n)

  counts_after :
      (f : Value → ℕ) (n : ℕ) (bs : List Value) (s : Value) (vs : List Value)
      → ((observe_all fp (seen f n bs s) vs).counts ≡ map (λ b. (f b + at_most b vs) % 2 ^ 64) bs)
        × ((observe_all fp (seen f n bs s) vs).total_count ≡ (n + length vs) % 2 ^ 64)
  unfolding observe_all
  counts_after f n bs s [] =
      (map-ext (λ b. f b % 2 ^ 64) (λ b. (f b + 0) % 2 ^ 64) (λ b. omega arith) bs, omega arith)
  counts_after f n bs s (v ∷ vs) =
      let (counts, total) =
        counts_after (λ b. f b + one_if (fp.le v b)) (n + 1) bs (fp.add s v) vs in
      rw (observe_all, observe-seen f n bs s v)
        (counts ∙ map-ext _ _ (λ b. omega arith) bs, total ∙ omega arith)

  -- After any observations of a new histogram each bucket holds the number of the values that are at most
  -- its bound, and the total is their number, both modulo `2 ^ 64`.
  pub observe_all-new :
      (bs vs : List Value)
      → ((observe_all fp (new fp bs) vs).counts ≡ map (λ b. at_most b vs % 2 ^ 64) bs)
        × ((observe_all fp (new fp bs) vs).total_count ≡ length vs % 2 ^ 64)
  observe_all-new bs vs =
      let (counts, total) = counts_after (λ b. 0) 0 bs fp.zero_value vs in
      let start : new fp bs ≡ seen (λ b. 0) 0 bs fp.zero_value = cc (map-zero bs) in
      rw start (
        counts
            ∙ map-ext (λ b. (0 + at_most b vs) % 2 ^ 64) (λ b. at_most b vs % 2 ^ 64)
                (λ b. omega arith) bs,
        total ∙ omega arith,
      )

  at_most-length : (b : Value) (vs : List Value) → at_most b vs ≤ length vs
  at_most-length b [] = omega arith
  at_most-length b (v ∷ vs) = ground (arith, at_most-length b vs)

  at_most-le : (b b' : Value) (vs : List Value) → fp.le b b' ≡ true → at_most b vs ≤ at_most b' vs
  at_most-le b b' [] h = omega arith
  at_most-le b b' (v ∷ vs) h =
      let rest = at_most-le b b' vs h in
      elim (Bool-cases (fp.le v b)) [
        | inl e ↦ rw (e, fp.le_trans v b b' e h) (omega (arith, rest))
        | inr e ↦ rw e (omega (arith, rest))
      ]

  -- Bounds in ascending order.
  abbrev pub IsAscending : List Value → Type 0
  IsAscending [] = Unit
  IsAscending (b ∷ []) = Unit
  IsAscending (b ∷ (c ∷ bs)) = (fp.le b c ≡ true) × IsAscending (c ∷ bs)

  small_mod :
      (b : Value) (vs : List Value) → length vs < 2 ^ 64 → at_most b vs % 2 ^ 64 ≡ at_most b vs
  small_mod b vs h = omega (arith, h, at_most-length b vs)

  at_most-IsCumulative :
      (bs vs : List Value) → IsAscending bs → IsCumulative (map (λ b. at_most b vs) bs) (length vs)
  at_most-IsCumulative [] vs h = tt
  at_most-IsCumulative (b ∷ []) vs h = (at_most-length b vs, tt)
  at_most-IsCumulative (b ∷ (c ∷ bs)) vs (h, hs) =
      (at_most-le b c vs h, at_most-IsCumulative (c ∷ bs) vs hs)

  -- With bounds in ascending order and fewer than `2 ^ 64` observations, the counts ascend from bucket to
  -- bucket and none is above the total, as a Prometheus histogram has it.
  pub observe_all-IsCumulative :
      (bs vs : List Value)
      → IsAscending bs
      → length vs < 2 ^ 64
      → IsCumulative
          (observe_all fp (new fp bs) vs).counts
          (observe_all fp (new fp bs) vs).total_count
  observe_all-IsCumulative bs vs up few =
      let (counts, total) = observe_all-new bs vs in
      let plain =
        map-ext (λ b. at_most b vs % 2 ^ 64) (λ b. at_most b vs) (λ b. small_mod b vs few) bs in
      let whole : length vs % 2 ^ 64 ≡ length vs = omega (arith, few) in
      rw (counts ∙ plain, total ∙ whole) (at_most-IsCumulative bs vs up)

-- ===== src/Server/Gateway/Concurrent/Slots.antt =====
-- What the slots of the backends count, however requests interleave.
use mathlib.Core.Path.{subst}
use kvmux.Prelude.{
  get_elem?-set, ℕ, suc, ◌+◌, ◌≤◌, ◌≡◌, refl, sym, ap, ◌∙◌, ◌≢◌, inl, inr, true, not, some, List,
  [], ◌∷◌, arith, ℕ_discrete, ◌==◌, if◌then◌else◌, Option-cases, either, get_elem?, set,
}
use kvmux.Health.Breaker.{CircuitBreaker, Decision, allow_request, abort_probe}
use kvmux.Health.Checker.{HealthState}
use kvmux.Admission.Limiter.{PerBackendLimiter, try_acquire, release, try_acquire-release}
use kvmux.Admission.Gate.{contains, erase_first}
use kvmux.Server.Gateway.{Backend}
use kvmux.Server.Gateway.Concurrent.{
  take_slot, begin, finish, store_health, World, began, finished, Step, begins, finishes, stores,
  Reach, here, next,
}

-- How many of the attempts are made at a backend.
unfoldable pub count : ℕ → List ℕ → ℕ
count i [] = 0
count i (j ∷ js) = let rest = count i js in if j == i then suc rest else rest

count-other : (i j : ℕ) (js : List ℕ) → i ≢ j → count j (i ∷ js) ≡ count j js
unfolding count
count-other i j js h = ground (arith, h)

count-same : (i : ℕ) (js : List ℕ) → count i (i ∷ js) ≡ suc (count i js)
unfolding count
count-same i js = ground arith

count-erase_other : (i j : ℕ) (js : List ℕ) → i ≢ j → count j (erase_first i js) ≡ count j js
unfolding count erase_first
count-erase_other i j [] h = refl
count-erase_other i j (k ∷ ks) h = ground (arith, h, count-erase_other i j ks h)

count-erase_same :
    (i : ℕ) (js : List ℕ) → contains i js ≡ true → count i js ≡ suc (count i (erase_first i js))
unfolding count contains erase_first
count-erase_same i [] h = cc
count-erase_same i (k ∷ ks) h = ground (arith, count-erase_same i ks)

-- At each backend the slots in use are the attempts that run there, within its bound.
abbrev pub AreCounted : World → Type 0
AreCounted w =
    (i : ℕ) (b : Backend)
    → get_elem? w.backends i ≡ some b
    → (b.limiter.active ≡ count i w.attempts) × (b.limiter.active ≤ b.limiter.max_in_flight)

set-AreCounted :
    (bs : List Backend) (is js : List ℕ) (i : ℕ) (b : Backend)
    → AreCounted (record { backends = bs; attempts = is })
    → ((j : ℕ) → i ≢ j → count j js ≡ count j is)
    → b.limiter.active ≡ count i js
    → b.limiter.active ≤ b.limiter.max_in_flight
    → AreCounted (record { backends = set bs i b; attempts = js })
set-AreCounted bs is js i b h others now within j c found = elim (get_elem?-set bs i j b c found) [
  | inl (e, f) ↦ rw⁻¹ e (rw f (now, within))
  | inr (e, f) ↦ let (counts, fits) = h j c f in (counts ∙ sym (others j e), fits)
]

try_acquire-taken :
    (l : PerBackendLimiter)
    → (try_acquire l).1 ≡ true
    → ((try_acquire l).0.active ≡ l.active + 1)
      × ((try_acquire l).0.max_in_flight ≡ l.max_in_flight)
unfolding try_acquire
try_acquire-taken l h = ground arith

begin-AreCounted :
    (asked aborted i : ℕ) (w : World)
    → AreCounted w
    → AreCounted (began i w (begin asked aborted i w.backends))
unfolding begin
begin-AreCounted asked aborted i w h = elim (Option-cases (get_elem? w.backends i)) [
  | inl gone ↦ rw (begin, gone) h
  | inr (b, there) ↦
      rw (begin, there)
        (take i b (allow_request b.breaker asked).0 (allow_request b.breaker asked).1 aborted w h
          there)
]
  where
    take :
        (i : ℕ) (b : Backend) (breaker : CircuitBreaker) (dec : Decision) (aborted : ℕ) (w : World)
        → AreCounted w
        → get_elem? w.backends i ≡ some b
        → AreCounted (began i w (take_slot i b (breaker, dec) aborted w.backends))
    take i b breaker dec aborted w h there =
        let kept = λ (b' : Backend) (same : b'.limiter ≡ b.limiter).
          set-AreCounted w.backends w.attempts w.attempts i b' h (λ j e. refl)
            (ap PerBackendLimiter.active same ∙ (h i b there).0) (rw same ((h i b there).1)) in
        either (λ x. AreCounted (began i w x)) (not dec.allowed)
          (kept (record b { breaker = breaker }) refl)
          (elim (try_acquire-release b.limiter) [
            | inl (taken, fits, back, room) ↦
                rw taken
                  let (more, bound) = try_acquire-taken b.limiter taken in
                    let (counts, within) = h i b there in
                    set-AreCounted w.backends w.attempts (i ∷ w.attempts) i
                      (record b { breaker = breaker; limiter = (try_acquire b.limiter).0 }) h
                      (λ j e. count-other i j w.attempts e)
                      (omega (arith, more, counts, count-same i w.attempts))
                      (omega (arith, fits, bound))
            | inr (taken, same, full) ↦
                rw taken
                  (kept (record b { breaker = abort_probe breaker dec.is_probe aborted }) refl)
          ])

finish-AreCounted :
    (i : ℕ) (breaker : CircuitBreaker) (w : World)
    → contains i w.attempts ≡ true
    → AreCounted w
    → AreCounted (finished i breaker w)
unfolding finish release
finish-AreCounted i breaker w runs h = elim (Option-cases (get_elem? w.backends i)) [
  | inl gone ↦
      rw (finish, gone)
        (λ j c found. elim (ℕ_discrete i j) [
          | yes e ↦ cc
          | no e ↦
              let (counts, fits) = h j c found in
              (counts ∙ sym (count-erase_other i j w.attempts e), fits)
        ])
  | inr (b, there) ↦
      let (counts, fits) = h i b there in
      rw (finish, there)
        (set-AreCounted w.backends w.attempts (erase_first i w.attempts) i
          (record b { breaker = breaker; limiter = release b.limiter }) h
          (λ j e. count-erase_other i j w.attempts e)
          (omega (arith, counts, count-erase_same i w.attempts runs)) (omega (arith, fits)))
]

store_health-AreCounted :
    (i : ℕ) (s : HealthState) (w : World)
    → AreCounted w
    → AreCounted (record { backends = store_health i s w.backends; attempts = w.attempts })
unfolding store_health
store_health-AreCounted i s w h = elim (Option-cases (get_elem? w.backends i)) [
  | inl gone ↦ rw (store_health, gone) h
  | inr (b, there) ↦
      let (counts, fits) = h i b there in
      rw (store_health, there)
        (set-AreCounted w.backends w.attempts w.attempts i (record b { health = s }) h (λ j e. refl)
          counts fits)
]

Step-AreCounted : (w v : World) → Step w v → AreCounted w → AreCounted v
Step-AreCounted w v (begins asked aborted i e) h =
    subst AreCounted (sym e) (begin-AreCounted asked aborted i w h)
Step-AreCounted w v (finishes i breaker runs e) h =
    subst AreCounted (sym e) (finish-AreCounted i breaker w runs h)
Step-AreCounted w v (stores i s e) h = subst AreCounted (sym e) (store_health-AreCounted i s w h)

-- Whatever walks run at the same time, and however their positions, outcomes and probes interleave: at each
-- backend the slots in use are the attempts that run there, and not more than its bound, if this was so at
-- the start, as with no slot in use and no attempt.
pub Reach-AreCounted : (w v : World) → AreCounted w → Reach w v → AreCounted v
Reach-AreCounted w v h here = h
Reach-AreCounted w v h (next {u} reached step) =
    Step-AreCounted u v step (Reach-AreCounted w u h reached)

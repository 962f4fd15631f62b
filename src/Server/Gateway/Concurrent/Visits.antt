-- ===== src/Server/Gateway/Concurrent/Visits.antt =====
-- A position of the walk of src/server/gateway.cpp as steps among those of other requests.
use mathlib.Core.Path.{subst}
use kvmux.Prelude.{
  ℕ, zero, suc, ◌+◌, ◌≡◌, refl, ap, ◌∙◌, ◌⊎◌, inl, inr, Bool, true, not, ◌&&◌, Option, none, some,
  List, [], ◌∷◌, arith, ltb, leb, Bool-cases, Option-cases, is_empty, get_elem?, set,
  get_elem?-set_same,
}
use kvmux.Health.Breaker.{CircuitBreaker, Decision, allow_request}
use kvmux.Admission.Limiter.{try_acquire}
use kvmux.Admission.Gate.{contains, erase_first}
use kvmux.Server.Gateway.{Backend}
use kvmux.Server.Gateway.Attempt.{Render, Ending}
use kvmux.Server.Gateway.Walk.{
  walk, Round, Walk, Request, map_from, record_spills, conclude, dispatch, admit, visit, attempt,
  max_attempts,
}
use kvmux.Server.Gateway.Laws.{spills-backends}
use kvmux.Server.Gateway.Concurrent.{
  take_slot, begin, finish, World, begins, finishes, Reach, here, next,
}

get_elem?-map_from :
    (others : ℕ → Backend → Backend) (n i : ℕ) (bs : List Backend) (b : Backend)
    → get_elem? bs i ≡ some b
    → get_elem? (map_from n others bs) i ≡ some (others (n + i) b)
unfolding map_from
get_elem?-map_from others n i [] b h = cc
get_elem?-map_from others n zero (c ∷ bs) b h = let e : n + 0 ≡ n = omega arith in rw e (cc)
get_elem?-map_from others n (suc i) (c ∷ bs) b h =
    let e : n + 1 + i ≡ n + suc i = omega arith in
    subst (λ k. get_elem? (map_from (n + 1) others bs) i ≡ some (others k b)) e
      (get_elem?-map_from others (n + 1) i bs b h)

-- What a position comes to: nothing more, or an attempt and in the end what its outcome leaves.
abbrev pub Comes : ℕ → (ℕ → Backend → Backend) → List Backend × Option Bool → List Backend → Type 0
Comes i others x bs =
    ((x.1 ≡ none) × (bs ≡ x.0))
    ⊎ ((p : Bool) × (breaker : CircuitBreaker) × (x.1 ≡ some p)
        × (bs ≡ finish i breaker (map_from 0 others x.0)))

module _ (js : Render) (req : Request) where
  dispatch-Comes :
      (i : ℕ) (b c : Backend) (p : Bool) (r : Round) (more : Bool) (w : Walk)
      → get_elem? w.backends i ≡ some b
      → Comes i r.others (set w.backends i c, some p) (dispatch js req i c p r more w).0.backends
  unfolding dispatch conclude finish
  dispatch-Comes i b c p r more w there =
      let found : get_elem? (map_from 0 r.others (set w.backends i c)) i ≡ some (r.others i c) =
        let e : 0 + i ≡ i = omega arith in
        subst (λ k. get_elem? (map_from 0 r.others (set w.backends i c)) i ≡ some (r.others k c)) e
          (get_elem?-map_from r.others 0 i (set w.backends i c) c
            (get_elem?-set_same w.backends i b c there)) in
      let more_left = ltb (w.attempts + 1) max_attempts && more in
      inr (
        p,
        Ending.breaker (attempt js req (r.others i c).breaker p r more_left),
        refl,
        rw (finish, found) refl,
      )

  admit-Comes :
      (i : ℕ) (b : Backend) (breaker : CircuitBreaker) (dec : Decision) (r : Round) (more : Bool)
      (w : Walk)
      → get_elem? w.backends i ≡ some b
      → Comes i r.others
          (take_slot i b (breaker, dec) r.aborted w.backends)
          (admit js req i b (breaker, dec) r more w).0.backends
  unfolding admit take_slot
  admit-Comes i b breaker dec r more w there = elim (Bool-cases dec.allowed) [
    | inr denied ↦ rw denied (inl (refl, refl))
    | inl allowed ↦ elim (Bool-cases (try_acquire b.limiter).1) [
      | inr full ↦ rw (allowed, full) (inl (refl, refl))
      | inl taken ↦
          rw (allowed, taken)
            (dispatch-Comes i b
              (record b { breaker = breaker; limiter = (try_acquire b.limiter).0 }) dec.is_probe r
              more w there)
    ]
  ]

  visit-Comes :
      (i : ℕ) (r : Round) (more : Bool) (w : Walk)
      → Comes i r.others (begin r.asked r.aborted i w.backends) (visit js req i r more w).0.backends
  unfolding visit begin
  visit-Comes i r more w = elim (Option-cases (get_elem? w.backends i)) [
    | inl gone ↦ rw (begin, visit, gone) (inl (refl, refl))
    | inr (b, there) ↦
        rw (begin, visit, there)
          (subst
            (λ bs.
              Comes i r.others (take_slot i b (allow_request b.breaker r.asked) r.aborted bs)
                (admit js req i b (allow_request b.breaker r.asked) r more
                  (record_spills req b w)).0.backends)
            (spills-backends js req b w)
            (admit-Comes i b (allow_request b.breaker r.asked).0 (allow_request b.breaker r.asked).1
              r more (record_spills req b w)
              (ap (λ bs. get_elem? bs i) (spills-backends js req b w) ∙ there)))
  ]

  -- The attempts that run once a position is over, where `running` are those of all requests when its
  -- outcome comes.
  abbrev pub attempts_after : ℕ → Option Bool → List ℕ → List ℕ → List ℕ
  attempts_after i none running before = before
  attempts_after i (some p) running before = erase_first i running

  -- What the others do while a position waits for its upstream is a run of steps, which leaves it its
  -- attempt.
  abbrev pub IsRun : ℕ → Round → List ℕ → List Backend → List ℕ → Type 0
  IsRun i r running bs before =
      let (later, started) = begin r.asked r.aborted i bs in
      (p : Bool)
      → started ≡ some p
      → Reach (record { backends = later; attempts = i ∷ before })
          (record { backends = map_from 0 r.others later; attempts = running })
        × (contains i running ≡ true)

  Reach-trans : {u v w : World} → Reach u v → Reach v w → Reach u w
  Reach-trans r here = r
  Reach-trans r (next s step) = next (Reach-trans r s) step

  visit-Reach :
      (i : ℕ) (r : Round) (more : Bool) (w : Walk) (running before : List ℕ)
      → IsRun i r running w.backends before
      → Reach
          (record { backends = w.backends; attempts = before })
          (record {
            backends = (visit js req i r more w).0.backends;
            attempts = attempts_after i (begin r.asked r.aborted i w.backends).1 running before;
          })
  visit-Reach i r more w running before run = elim (visit-Comes i r more w) [
    | inl (no_attempt, e) ↦
        rw (e, no_attempt) (next here (begins r.asked r.aborted i (rw no_attempt refl)))
    | inr (p, breaker, started, e) ↦
        let (others, there) = run p started in
        let start = next here (begins r.asked r.aborted i (rw started refl)) in
        rw (e, started) (next (Reach-trans start others) (finishes i breaker there refl))
  ]

  -- What the others do during the positions of a walk, from position `pos` on, is steps.
  unfoldable pub AreRuns : (ℕ → Round) → (ℕ → List ℕ) → ℕ → List ℕ → Walk → List ℕ → Type 0
  AreRuns rounds running pos [] w before = Unit
  AreRuns rounds running pos (i ∷ is) w before =
      let r = rounds pos in
      let after = attempts_after i (begin r.asked r.aborted i w.backends).1 (running pos) before in
      IsRun i r (running pos) w.backends before
      × AreRuns rounds running (pos + 1) is (visit js req i r (not (is_empty is)) w).0 after

  -- A whole walk is a run of steps, from the backends and the attempts of all requests when it begins to
  -- those when it ends, if what the others do while it waits for an upstream is one, which leaves the walk
  -- its attempt.
  pub walk-Reach :
      (rounds : ℕ → Round) (running : ℕ → List ℕ) (pos : ℕ) (is : List ℕ) (w : Walk)
      (before : List ℕ)
      → AreRuns rounds running pos is w before
      → (after : List ℕ) × Reach
          (record { backends = w.backends; attempts = before })
          (record { backends = (walk js req rounds pos is w).0.backends; attempts = after })
  unfolding AreRuns walk
  walk-Reach rounds running pos [] w before runs = (before, here)
  walk-Reach rounds running pos (i ∷ is) w before (run, runs) =
      let r = rounds pos in
      let one = visit-Reach i r (not (is_empty is)) w (running pos) before run in
      let (after, rest) = walk-Reach rounds running (pos + 1) is _ _ runs in
      elim (Bool-cases (leb max_attempts w.attempts)) [
        | inl spent ↦ rw (walk, spent) (before, here)
        | inr more_left ↦ elim (Option-cases (visit js req i r (not (is_empty is)) w).1) [
          | inl again ↦ rw (walk, more_left, again) (after, Reach-trans one rest)
          | inr (reply, done) ↦ rw (walk, more_left, done) (_, one)
        ]
      ]

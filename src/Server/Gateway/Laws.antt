-- ===== src/Server/Gateway/Laws.antt =====
-- What the walk of `handle_chat` does to the slots of the backends.
use kvmux.Prelude.{
  either_some, ◌+◌, ◌≡◌, refl, ap, ◌∙◌, inl, inr, Bool, not, ◌&&◌, Option, some, List, [], ◌∷◌, map,
  ltb, leb, Option-cases, either, get_elem?, set, map-set, get_elem?-map, set-set, set-same, ℕ,
  is_empty,
}
use kvmux.Health.Breaker.{CircuitBreaker, Decision, allow_request, abort_probe}
use kvmux.Admission.Limiter.{PerBackendLimiter, try_acquire, release, try_acquire-release}
use kvmux.Server.Gateway.{Backend}
use kvmux.Server.Gateway.Attempt.{Render, Reply}
use kvmux.Server.Gateway.Walk.{
  Round, Walk, Request, map_from, record_spills, conclude, dispatch, admit, visit, walk,
}

-- The slots in use at the backends.
abbrev pub slots : List Backend → List PerBackendLimiter
slots bs = map (λ b. b.limiter) bs

-- The other requests have given back by the end of the round the slots that they took in it.
abbrev pub IsBalanced : Round → Type 0
IsBalanced r = (i : ℕ) (b : Backend) → (r.others i b).limiter ≡ b.limiter

slots-map_from :
    (others : ℕ → Backend → Backend)
    → ((i : ℕ) (b : Backend) → (others i b).limiter ≡ b.limiter)
    → (n : ℕ) (bs : List Backend) → slots (map_from n others bs) ≡ slots bs
unfolding map_from
slots-map_from others keep n [] = refl
slots-map_from others keep n (b ∷ bs) = cc (keep n b, slots-map_from others keep (n + 1) bs)

slots-set :
    (bs : List Backend) (i : ℕ) (b b' : Backend)
    → get_elem? bs i ≡ some b
    → b'.limiter ≡ b.limiter
    → slots (set bs i b') ≡ slots bs
slots-set bs i b b' h e =
    map-set (λ x. x.limiter) bs i b'
    ∙ ap (set (slots bs) i) e
    ∙ set-same (slots bs) i b.limiter (get_elem?-map (λ x. x.limiter) bs i b h)

module _ (js : Render) (req : Request) where
  dispatch-slots :
      (i : ℕ) (b b' : Backend) (p : Bool) (r : Round) (more : Bool) (w : Walk)
      → IsBalanced r
      → get_elem? w.backends i ≡ some b
      → release b'.limiter ≡ b.limiter
      → slots (dispatch js req i b' p r more w).0.backends ≡ slots w.backends
  unfolding dispatch conclude
  dispatch-slots i b b' p r more w keep h e =
      let back : release (r.others i b').limiter ≡ b.limiter = ap release (keep i b') ∙ e in
      map-set (λ x. x.limiter) (map_from 0 r.others (set w.backends i b')) i _
      ∙ ap (λ l. set (slots (map_from 0 r.others (set w.backends i b'))) i l) back
      ∙ ap (λ ls. set ls i b.limiter)
          (slots-map_from r.others keep 0 (set w.backends i b')
            ∙ map-set (λ x. x.limiter) w.backends i b')
      ∙ set-set (slots w.backends) i b'.limiter b.limiter
      ∙ set-same (slots w.backends) i b.limiter (get_elem?-map (λ x. x.limiter) w.backends i b h)

  admit-slots :
      (i : ℕ) (b : Backend) (breaker : CircuitBreaker) (dec : Decision) (r : Round) (more : Bool)
      (w : Walk)
      → IsBalanced r
      → get_elem? w.backends i ≡ some b
      → slots (admit js req i b (breaker, dec) r more w).0.backends ≡ slots w.backends
  unfolding admit
  admit-slots i b breaker dec r more w keep h =
      either (λ (x : Walk × Option Reply). slots x.0.backends ≡ slots w.backends) (not dec.allowed)
        (slots-set w.backends i b (record b { breaker = breaker }) h refl)
        (elim (try_acquire-release b.limiter) [
          | inl (taken, fits, back, free) ↦ rw taken (
              dispatch-slots i b
                (record b { breaker = breaker; limiter = (try_acquire b.limiter).0 }) dec.is_probe r
                more w keep h back)
          | inr (taken, same, full) ↦ rw taken (
              slots-set w.backends i b
                (record b { breaker = abort_probe breaker dec.is_probe r.aborted }) h refl)
        ])

  pub spills-backends : (b : Backend) (w : Walk) → (record_spills req b w).backends ≡ w.backends
  unfolding record_spills
  spills-backends b w =
      either (λ (x : Walk). x.backends ≡ w.backends) (is_empty w.spilled && ltb 0 req.spills) refl
        refl

  visit-slots :
      (i : ℕ) (r : Round) (more : Bool) (w : Walk)
      → IsBalanced r
      → slots (visit js req i r more w).0.backends ≡ slots w.backends
  unfolding visit
  visit-slots i r more w keep = elim (Option-cases (get_elem? w.backends i)) [
    | inl e ↦ rw (visit, e) refl
    | inr (b, e) ↦
        let same = spills-backends b w in
        rw (visit, e)
          (admit-slots i b (allow_request b.breaker r.asked).0 (allow_request b.breaker r.asked).1 r
              more (record_spills req b w) keep (ap (λ bs. get_elem? bs i) same ∙ e)
            ∙ ap slots same)
  ]

  -- However the attempts end, the walk gives back every slot that it takes: once it is over, the slots in
  -- use at the backends are those from before, if the other requests leave theirs as they were.
  pub walk-slots :
      (rounds : ℕ → Round) (pos : ℕ) (is : List ℕ) (w : Walk)
      → ((n : ℕ) → IsBalanced (rounds n))
      → slots (walk js req rounds pos is w).0.backends ≡ slots w.backends
  unfolding walk
  walk-slots rounds pos [] w keep = refl
  walk-slots rounds pos (i ∷ is) w keep =
      let more = not (is_empty is) in
      let first = visit-slots i (rounds pos) more w (keep pos) in
      let later = walk-slots rounds (pos + 1) is (visit js req i (rounds pos) more w).0 keep in
      either (λ (x : Walk × Option Reply). slots x.0.backends ≡ slots w.backends) (leb 2 w.attempts)
        refl
        (either_some (λ (x : Walk × Option Reply). slots x.0.backends ≡ slots w.backends)
          (visit js req i (rounds pos) more w).1 (later ∙ first) (λ _. first))

-- ===== src/Server/Gateway/Life/Drained.antt =====
-- What a signal puts an end to.
use mathlib.Core.Path.{subst}
use kvmux.Prelude.{
  map, set, map-set, get_elem?-map, ℕ, zero, suc, ◌≤◌, ◌≡◌, refl, sym, ap, ◌∙◌, inl, inr, true,
  some, List, [], ◌∷◌, arith, Option-cases, either, either_some, get_elem?, All, set-same,
}
use kvmux.Health.Checker.Monitoring.{
  Loop, Event, step, step-IsStopped, IsStopped, stop, stop_health_monitors,
}
use kvmux.Server.Gateway.Routes.{Route, healthz, models, chat_completions, unknown, route_of}
use kvmux.Server.Gateway.Life.{
  Life, begin_drain, on_signal, let_in, arrive, depart, probe, Step, arrives, departs, probes,
  signals, Reach, here, next,
}

-- The count is that of the chats that run.
abbrev pub IsCounted : Life → Type 0
IsCounted l = l.in_flight ≡ l.chats

let_in-IsCounted : (l : Life) (r : Route) → IsCounted l → IsCounted (let_in l r)
let_in-IsCounted l healthz h = h
let_in-IsCounted l models h = h
let_in-IsCounted l chat_completions h = omega (arith, h)
let_in-IsCounted l unknown h = h

Step-IsCounted : (l m : Life) → Step l m → IsCounted l → IsCounted m
unfolding arrive depart probe on_signal begin_drain
Step-IsCounted l m (arrives method target e) h =
    rw e (either IsCounted l.draining h (let_in-IsCounted l (route_of method target) h))
Step-IsCounted l m (departs some_chat e) h = rw e (omega (arith, h))
Step-IsCounted l m (probes i results e) h =
    rw e (either_some IsCounted (get_elem? l.monitors i) h (λ x. h))
Step-IsCounted l m (signals e) h = rw e h

pub Reach-IsCounted : (l m : Life) → IsCounted l → Reach l m → IsCounted m
Reach-IsCounted l m h here = h
Reach-IsCounted l m h (next {m = u} reached step) =
    Step-IsCounted u m step (Reach-IsCounted l u h reached)

-- How many probes each monitor has begun.
abbrev pub probes_begun : Life → List ℕ
probes_begun l = map Loop.begun l.monitors

stop_health_monitors-IsStopped : (ls : List Loop) → All IsStopped (stop_health_monitors ls)
unfolding stop_health_monitors stop
stop_health_monitors-IsStopped [] = tt
stop_health_monitors-IsStopped (l ∷ ls) = (refl, stop_health_monitors-IsStopped ls)

stop_health_monitors-begun :
    (ls : List Loop) → map Loop.begun (stop_health_monitors ls) ≡ map Loop.begun ls
unfolding stop_health_monitors stop
stop_health_monitors-begun [] = refl
stop_health_monitors-begun (l ∷ ls) = ap (◌∷◌ l.begun) (stop_health_monitors-begun ls)

-- What a signal leaves for good: the gateway drains, no monitor begins a probe, and no chat is let in.
pub record IsOver (s l : Life) : Type 0 where
  pub drains : l.draining ≡ true
  pub stopped : All IsStopped l.monitors
  pub quiet : probes_begun l ≡ probes_begun s
  pub fewer : l.chats ≤ s.chats

set-All {ℓ κ} :
    {A : Type ℓ} (P : A → Type κ) (xs : List A) (i : ℕ) (x : A)
    → All P xs
    → P x
    → All P (set xs i x)
set-All P [] i x h p = tt
set-All P (y ∷ ys) zero x (h, hs) p = (p, hs)
set-All P (y ∷ ys) (suc i) x (h, hs) p = (h, set-All P ys i x hs p)

get_elem?-All {ℓ κ} :
    {A : Type ℓ} (P : A → Type κ) (xs : List A) (i : ℕ) (x : A)
    → All P xs
    → get_elem? xs i ≡ some x
    → P x
get_elem?-All P [] i x h e = cc
get_elem?-All P (y ∷ ys) zero x (h, hs) e = subst P (cc) h
get_elem?-All P (y ∷ ys) (suc i) x (h, hs) e = get_elem?-All P ys i x hs e

probe-IsOver : (s l : Life) (i : ℕ) (e : Event) → IsOver s l → IsOver s (probe i e l)
unfolding probe
probe-IsOver s l i e h = elim (Option-cases (get_elem? l.monitors i)) [
  | inl gone ↦ rw (probe, gone) h
  | inr (m, there) ↦
      let (still, none_begun) =
        step-IsStopped e m (get_elem?-All IsStopped l.monitors i m h.stopped there) in
      rw (probe, there)
        (record {
          drains = h.drains;
          stopped = set-All IsStopped l.monitors i (step e m) h.stopped still;
          quiet =
              map-set Loop.begun l.monitors i (step e m)
              ∙ ap (set (probes_begun l) i) none_begun
              ∙ set-same (probes_begun l) i m.begun (get_elem?-map Loop.begun l.monitors i m there)
              ∙ h.quiet;
          fewer = h.fewer;
        })
]

Step-IsOver : (s l m : Life) → Step l m → IsOver s l → IsOver s m
unfolding arrive depart on_signal begin_drain
Step-IsOver s l m (arrives method target e) h =
    let same : arrive method target l ≡ l = simp h.drains refl in
    subst (IsOver s) (sym (e ∙ same)) h
Step-IsOver s l m (departs some_chat e) h = rw e (record {
  drains = h.drains;
  stopped = h.stopped;
  quiet = h.quiet;
  fewer = omega (arith, h.fewer);
})
Step-IsOver s l m (probes i x e) h = subst (IsOver s) (sym e) (probe-IsOver s l i x h)
Step-IsOver s l m (signals e) h = rw e (record {
  drains = refl;
  stopped = stop_health_monitors-IsStopped l.monitors;
  quiet = stop_health_monitors-begun l.monitors ∙ h.quiet;
  fewer = h.fewer;
})

pub Reach-IsOver : (s l m : Life) → IsOver s l → Reach l m → IsOver s m
Reach-IsOver s l m h here = h
Reach-IsOver s l m h (next {m = u} reached step) =
    Step-IsOver s u m step (Reach-IsOver s l u h reached)

-- After a signal.
pub on_signal-IsOver : (l m : Life) → Reach (on_signal l) m → IsOver l m
unfolding on_signal begin_drain
on_signal-IsOver l m reached =
    Reach-IsOver l (on_signal l) m
      (record {
        drains = refl;
        stopped = stop_health_monitors-IsStopped l.monitors;
        quiet = stop_health_monitors-begun l.monitors;
        fewer = omega arith;
      })
      reached

pub on_signal-IsCounted : (l : Life) → IsCounted l → IsCounted (on_signal l)
unfolding on_signal begin_drain
on_signal-IsCounted l h = h

-- From then on the chats only become fewer.
pub IsOver-later : (s l m : Life) → IsOver s l → Reach l m → m.chats ≤ l.chats
IsOver-later s l m h reached = IsOver.fewer (
    Reach-IsOver l l m
      (record { drains = h.drains; stopped = h.stopped; quiet = refl; fewer = omega arith })
      reached)

pub Reach-trans : {l m n : Life} → Reach l m → Reach m n → Reach l n
Reach-trans r here = r
Reach-trans r (next s step) = next (Reach-trans r s) step

-- ===== src/Health/Checker/Monitoring.antt =====
-- The loop of `HealthMonitor::run` of src/health/checker.cpp, one step from each `co_await` to the next.
use kvmux.Prelude.{
  ◌∙◌, ℕ, ◌+◌, ◌≡◌, refl, true, false, List, [], ◌∷◌, map, if◌then◌else◌, Bool, codes,
}
use kvmux.Upstream.Target.{Target}
use kvmux.Upstream.Requests.{Outgoing}
use kvmux.Upstream.Client.{UnaryResult, UnaryExchange, get}
use kvmux.Health.Checker.{
  HealthState, ProbeResult, dead, BackendType, ProbeResult, vllm, llamacpp, ollama,
  evaluate_health_endpoint, evaluate_ollama,
}

-- `to_probe`
abbrev pub to_probe : UnaryResult → ProbeResult
to_probe r = record { connected = r.connected; http_status = r.http_status; body = r.body }

-- What becomes of each request that a probe may send.
abbrev pub Network : Type 0
Network = Outgoing → UnaryExchange

-- The state that a probe stores.
unfoldable pub probe_once : BackendType → Target → Network → HealthState
unfolding evaluate_health_endpoint evaluate_ollama
probe_once vllm client network =
    evaluate_health_endpoint (to_probe (get client network (codes "/health")))
probe_once llamacpp client network =
    evaluate_health_endpoint (to_probe (get client network (codes "/health")))
probe_once ollama client network =
    evaluate_ollama (to_probe (get client network (codes "/")))
      (to_probe (get client network (codes "/api/tags")))

-- `client` is where the client that it uses connects to.
pub record HealthMonitor : Type 0 where
  pub backend_type : BackendType
  pub client : Target
  pub state : HealthState
  pub stopped : Bool

-- Where the coroutine stands: at the head of its loop, in a probe, or past its end.
pub data Phase : Type 0 where
  at_head probing over : Phase

-- A monitor with its coroutine, and how many probes that has begun.
pub record Loop : Type 0 where
  pub monitor : HealthMonitor
  pub phase : Phase
  pub begun : ℕ

-- A new monitor, whose coroutine is spawned.
abbrev pub spawn : BackendType → Target → Loop
spawn type client = record {
  monitor = record { backend_type = type; client = client; state = dead; stopped = false };
  phase = at_head;
  begun = 0;
}

-- `stop`
unfoldable pub stop : Loop → Loop
stop l = record l { monitor = record l.monitor { stopped = true } }

-- What the coroutine waits for: to be resumed at the loop's head, first by its spawn and then by its timer;
-- what becomes of the requests of its probe; or an error from its timer.
pub data Event : Type 0 where
  resumed : Event
  probed : Network → Event
  cancelled : Event

-- A coroutine that is not at the place for an event is left alone.
unfoldable pub step_at : Phase → Event → Loop → Loop
step_at at_head resumed l =
    if l.monitor.stopped
    then record l { phase = over }
    else record l { phase = probing; begun = l.begun + 1 }
step_at at_head cancelled l = record l { phase = over }
step_at probing (probed network) l = record l {
  monitor = record l.monitor { state = probe_once l.monitor.backend_type l.monitor.client network };
  phase = at_head;
}
step_at _ _ l = l

unfoldable pub step : Event → Loop → Loop
unfolding step_at
step e l = step_at l.phase e l

-- The gateway's `start_health_monitors` and `stop_health_monitors`, over the monitors of the backends.
unfoldable pub start_health_monitors : List (BackendType × Target) → List Loop
start_health_monitors backends = map (λ (type, client). spawn type client) backends

unfoldable pub stop_health_monitors : List Loop → List Loop
unfolding stop
stop_health_monitors [] = []
stop_health_monitors (l ∷ ls) = stop l ∷ stop_health_monitors ls

abbrev pub IsStopped : Loop → Type 0
IsStopped l = l.monitor.stopped ≡ true

step_at-IsStopped :
    (p : Phase) (e : Event) (l : Loop)
    → IsStopped l
    → IsStopped (step_at p e l) × ((step_at p e l).begun ≡ l.begun)
unfolding step_at
step_at-IsStopped at_head resumed l h = simp h (refl, refl)
step_at-IsStopped at_head (probed network) l h = (h, refl)
step_at-IsStopped at_head cancelled l h = (h, refl)
step_at-IsStopped probing resumed l h = (h, refl)
step_at-IsStopped probing (probed network) l h = (h, refl)
step_at-IsStopped probing cancelled l h = (h, refl)
step_at-IsStopped over e l h = (h, refl)

-- A monitor that is stopped stays so and begins no probe.
pub step-IsStopped :
    (e : Event) (l : Loop) → IsStopped l → IsStopped (step e l) × ((step e l).begun ≡ l.begun)
unfolding step
step-IsStopped e l h = step_at-IsStopped l.phase e l h

unfoldable pub run : List Event → Loop → Loop
unfolding step
run [] l = l
run (e ∷ es) l = run es (step e l)

step-over :
    (l : Loop) (network : Network)
    → IsStopped l
    → (step resumed (step (probed network) l)).phase ≡ over
unfolding step
step-over l network h = ends l.phase refl
  where
    ends : (p : Phase) → l.phase ≡ p → (step resumed (step_at p (probed network) l)).phase ≡ over
    ends at_head e = simp (e, h) refl
    ends probing e = simp h refl
    ends over e = simp e refl

run-IsStopped :
    (es : List Event) (l : Loop) → IsStopped l → IsStopped (run es l) × ((run es l).begun ≡ l.begun)
unfolding run
run-IsStopped [] l h = (h, refl)
run-IsStopped (e ∷ es) l h =
    let (still, none_begun) = step-IsStopped e l h in
    let (later, none_later) = run-IsStopped es (step e l) still in (later, none_later ∙ none_begun)

-- Wherever a monitor stands when it is stopped and whatever comes after, it begins no probe, and the end of
-- the probe that may be under way with one resumption ends its loop.
pub stop-over :
    (l : Loop) (es : List Event) (network : Network)
    → ((run es (stop l)).begun ≡ l.begun)
      × ((step resumed (step (probed network) (run es (stop l)))).phase ≡ over)
unfolding stop
stop-over l es network =
    let (stopped, none_begun) = run-IsStopped es (stop l) refl in
    (none_begun, step-over (run es (stop l)) network stopped)

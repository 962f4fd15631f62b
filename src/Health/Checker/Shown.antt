-- ===== src/Health/Checker/Shown.antt =====
-- What a monitor has been shown when it takes its backend for healthy.
use kvmux.Prelude.{◌≡◌, Option, none, some, List, [], ◌∷◌, ◌++◌, Bytes, codes}
use kvmux.Upstream.Target.{Target}
use kvmux.Upstream.Requests.{get_request}
use kvmux.Upstream.Client.{answered}
use kvmux.Health.Checker.{ollama, banner, dead, BackendType}
use kvmux.Health.Checker.Monitoring.{
  Network, HealthMonitor, probe_once, Phase, probing, Loop, Event, probed, step,
}

-- The probe that has come back last: an event brings answers to a loop that waits for them.
abbrev pub back : Phase → Event → Option Network → Option Network
back probing (probed network) found = some network
back _ _ found = found

unfoldable pub latest : Option Network → List Event → Loop → Option Network
latest found [] l = found
latest found (e ∷ es) l = latest (back l.phase e found) es (step e l)

module _ (type : BackendType) (client : Target) where
  -- The state is what the last probe gave, or dead before the first.
  record Follows (m : HealthMonitor) (found : Option Network) : Type 0 where
    same_type : m.backend_type ≡ type
    same_client : m.client ≡ client
    state_is : m.state ≡ elim found [ none ↦ dead | some network ↦ probe_once type client network ]

  -- What became of a request: an answer with 200 and this body.
  abbrev pub Answers : Network → Bytes → Bytes → Type 0
  Answers network path body = network (get_request client path) ≡ answered 200 body

  -- What a probe has to show of a backend of each type.
  abbrev pub ShowsHealth : BackendType → Network → Type 0
  ShowsHealth ollama network =
      (body : Bytes) × (tags : Bytes) × Answers network (codes "/") body
      × Answers network (codes "/api/tags") tags
      × (before : Bytes) × (after : Bytes) × (body ≡ before ++ (banner ++ after))
  ShowsHealth _ network = (body : Bytes) × Answers network (codes "/health") body

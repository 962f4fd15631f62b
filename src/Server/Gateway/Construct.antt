-- ===== src/Server/Gateway/Construct.antt =====
-- The constructor of `Gateway` in src/server/gateway.cpp, from a configuration.
pub mod Tests
use mathlib.Core.Path.{subst}
use kvmux.Prelude.{
  ℕ, zero, suc, ◌<◌, ◌≡◌, refl, inl, inr, none, some, List, [], ◌∷◌, map, arith, Option-cases,
  get_elem?, All, Bytes,
}
use kvmux.Prelude.Double.{Double}
use kvmux.Prelude.Result.{Result, ok, err, ◌>>=◌, Ensures, holds, thrown, Ensures-ok, Ensures-bind}
use kvmux.Config.{BackendConfig, Config}
use kvmux.Config.Valid.{IsValidBackend, AreValid, IsValidConfig}
use kvmux.Health.Breaker.{CircuitBreaker, closed}
use kvmux.Health.Breaker
use kvmux.Health.Checker.{dead}
use kvmux.Admission.Gate.{GlobalGate}
use kvmux.Admission.Gate
use kvmux.Routing.RoundRobin.{RoundRobin}
use kvmux.Upstream.Target.{Parsed, Target, target, https_unsupported, unparsable, parse}
use kvmux.Server.Gateway.{Backend, observed_health, candidates_of, backends_for_model}

-- One round of the loop over the backends: the client's target and the backend, whose monitor starts out
-- with DEAD, or the base URL that `Target::parse` throws on.
unfoldable pub with_target : BackendConfig → Parsed → Result Bytes (Target × Backend)
with_target bc (target t) = ok (
  t,
  record {
    name = bc.name;
    models = bc.models;
    health = dead;
    breaker = Breaker.new bc.failure_threshold bc.open_ms;
    limiter = record { max_in_flight = bc.max_in_flight; active = 0 };
    forced_health = none;
  },
)
with_target bc https_unsupported = err bc.base_url
with_target bc unparsable = err bc.base_url

unfoldable pub make_backend : BackendConfig → Result Bytes (Target × Backend)
unfolding with_target
make_backend bc = with_target bc (parse bc.base_url)

unfoldable pub make_backends : List BackendConfig → Result Bytes (List (Target × Backend))
unfolding make_backend
make_backends [] = ok []
make_backends (bc ∷ bcs) = do b ← make_backend bc; bs ← make_backends bcs; ok (b ∷ bs)

-- What the constructor makes; the timeout of the queue is left to the gate's timers.
pub record Gateway : Type 0 where
  pub backends : List (Target × Backend)
  pub gate : GlobalGate
  pub round_robin : RoundRobin

module _ (fp : Double) where
  unfoldable pub new : Config fp → Result Bytes Gateway
  unfolding make_backends
  new cfg = do
    backends ← make_backends cfg.backends
    ok (record {
      backends = backends;
      gate = Gate.new cfg.server.max_concurrent_streams cfg.server.queue_depth;
      round_robin = record { cursor = 0 };
    })

-- A backend that has seen no probe and no request yet.
pub record IsFresh (b : Backend) : Type 0 where
  pub unprobed : observed_health b ≡ dead
  pub circuit : b.breaker.state ≡ closed
  pub threshold : 0 < b.breaker.failure_threshold
  pub idle : b.limiter.active ≡ 0
  pub place : 0 < b.limiter.max_in_flight

abbrev pub Fresh : Target × Backend → Type 0
Fresh x = IsFresh x.1

with_target-Ensures :
    (bc : BackendConfig) (p : Parsed) → IsValidBackend bc → Ensures Fresh (with_target bc p)
unfolding with_target observed_health
with_target-Ensures bc (target t) valid = holds (record {
  unprobed = refl;
  circuit = refl;
  threshold = omega (arith, valid.threshold.0);
  idle = refl;
  place = omega (arith, valid.most.0);
})
with_target-Ensures bc https_unsupported valid = thrown
with_target-Ensures bc unparsable valid = thrown

make_backends-Ensures :
    (seen : List Bytes) (bcs : List BackendConfig)
    → AreValid seen bcs
    → Ensures (All Fresh) (make_backends bcs)
unfolding make_backends make_backend
make_backends-Ensures seen [] h = holds tt
make_backends-Ensures seen (bc ∷ bcs) (valid, unseen, rest) =
    Ensures-bind (with_target-Ensures bc (parse bc.base_url) valid) (λ b fresh.
      Ensures-bind (make_backends-Ensures (bc.name ∷ seen) bcs rest)
        (λ bs later. holds (fresh, later)))

abbrev pub backends_of : Gateway → List Backend
backends_of g = map (λ x. x.1) g.backends

map-IsFresh : (bs : List (Target × Backend)) → All Fresh bs → All IsFresh (map (λ x. x.1) bs)
map-IsFresh [] h = tt
map-IsFresh (b ∷ bs) (h, hs) = (h, map-IsFresh bs hs)

pub get_elem?-IsFresh :
    (bs : List Backend) (i : ℕ) (b : Backend) → All IsFresh bs → get_elem? bs i ≡ some b → IsFresh b
get_elem?-IsFresh [] i b h e = cc
get_elem?-IsFresh (b' ∷ bs) zero b (h, hs) e = subst IsFresh (cc) h
get_elem?-IsFresh (b' ∷ bs) (suc i) b (h, hs) e = get_elem?-IsFresh bs i b hs e

no_candidates : (bs : List Backend) (is : List ℕ) → All IsFresh bs → candidates_of bs is ≡ []
unfolding candidates_of
no_candidates bs [] h = refl
no_candidates bs (i ∷ is) h = elim (Option-cases (get_elem? bs i)) [
  | inl gone ↦ rw (candidates_of, gone) (no_candidates bs is h)
  | inr (b, there) ↦
      rw (candidates_of, there, IsFresh.unprobed (get_elem?-IsFresh bs i b h there))
        (no_candidates bs is h)
]

-- A gateway made of a valid configuration is ready to run: the gate admits at least one request, and each
-- backend has a closed breaker with a positive threshold and a free place; but until its monitors have
-- probed, no model has a candidate.
pub new-IsFresh :
    (fp : Double) (cfg : Config fp) (g : Gateway)
    → IsValidConfig fp cfg
    → new fp cfg ≡ ok g
    → (0 < g.gate.max_concurrent)
      × All IsFresh (backends_of g)
      × ((model : Bytes)
          → candidates_of (backends_of g) (backends_for_model (backends_of g) model) ≡ [])
unfolding new
new-IsFresh fp cfg g valid made =
    Ensures-ok
      {P = λ g'.
        (0 < g'.gate.max_concurrent)
        × All IsFresh (backends_of g')
        × ((model : Bytes)
            → candidates_of (backends_of g') (backends_for_model (backends_of g') model) ≡ [])}
      (Ensures-bind (make_backends-Ensures [] cfg.backends valid.backends) (λ bs fresh.
        let all = map-IsFresh bs fresh in
        holds (omega (arith, valid.server.streams.0), all, λ model. no_candidates _ _ all)))
      made

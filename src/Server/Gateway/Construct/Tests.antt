-- ===== src/Server/Gateway/Construct/Tests.antt =====
-- The gateway of the small configuration, its gauges, and a session while it drains.
use kvmux.Prelude.{◌<◌, ◌≡◌, refl, none, [], ◌∷◌, All, Bytes, codes, equal}
use kvmux.Prelude.Result.{ok, ◌>>=◌}
use kvmux.Metrics.Histogram.Tests.{whole_numbers}
use kvmux.Metrics.Registry.{Registry}
use kvmux.Config.Tests.{trees, small, loaded, small_loads}
use kvmux.Config.Ranges.{validate-IsValidConfig}
use kvmux.Admission.Gate.{GlobalGate, Entry, returned, admitted, enter, release}
use kvmux.Admission.Gate
use kvmux.Health.Breaker
use kvmux.Health.Checker.{dead}
use kvmux.Upstream.Target.{parse, host_and_port, up_to, past, strip_prefix}
use kvmux.Server.Gateway.{dead, candidates_of, backends_for_model}
use kvmux.Server.Gateway.Construct.{
  Gateway, IsFresh, backends_of, new, make_backends, make_backend, with_target, new-IsFresh,
}

abbrev pub made : Gateway
made = record {
  backends =
      (
        record { host = codes "gpu0"; port = codes "8000" },
        record {
          name = codes "gpu0";
          models = codes "m" ∷ [];
          health = dead;
          breaker = Breaker.new 5 10000;
          limiter = record { max_in_flight = 8; active = 0 };
          forced_health = none;
        },
      )
      ∷ [];
  gate = Gate.new 256 64;
  round_robin = record { cursor = 0 };
}

pub makes : new whole_numbers loaded ≡ ok made
unfolding new make_backends make_backend with_target ◌>>=◌ parse host_and_port up_to past
    strip_prefix equal
makes = refl

new-IsFresh_example :
    (0 < 256)
    × All IsFresh (backends_of made)
    × ((model : Bytes)
        → candidates_of (backends_of made) (backends_for_model (backends_of made) model) ≡ [])
new-IsFresh_example =
    new-IsFresh whole_numbers loaded made
      (validate-IsValidConfig whole_numbers trees small loaded refl refl small_loads) makes

abbrev pub empty_registry : Registry whole_numbers
empty_registry = record {
  ttft = [];
  itl = [];
  e2e = [];
  queue = [];
  overhead = [];
  requests_total = [];
  affinity_spills = [];
  backend_failures = [];
  requests_running = 0;
  requests_waiting = 0;
  ttft_buckets = [];
  tpot_buckets = [];
  duration_buckets = [];
}

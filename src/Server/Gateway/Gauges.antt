-- ===== src/Server/Gateway/Gauges.antt =====
-- `publish_admission_gauges` of src/server/gateway.cpp, and where `handle_chat` calls it: once it holds a slot, and
-- not when the ticket gives the slot back.
use kvmux.Prelude.{◌+◌, ◌<◌, ◌≡◌, refl, true, [], arith, ltb, length}
use kvmux.Prelude.Double.{Double}
use kvmux.Admission.Gate.{GlobalGate, returned, admitted, enter, release}
use kvmux.Metrics.Registry.{Registry, set_requests_running, set_requests_waiting}

module _ (fp : Double) where
  unfoldable pub publish_admission_gauges : Registry fp → GlobalGate → Registry fp
  publish_admission_gauges r g =
      set_requests_waiting fp (set_requests_running fp r g.in_flight) (length g.waiters)

  -- A request that gets a slot at once publishes the gauges, and the slot goes back when it is over. If
  -- nobody has joined the queue meanwhile, the gate then counts what it counted before, but the gauge of
  -- running requests is left one above that, so it never comes back to 0 with the last request.
  pub running_gauge_stale :
      (r : Registry fp) (g : GlobalGate)
      → g.waiters ≡ []
      → g.in_flight < g.max_concurrent
      → ((enter g).1 ≡ returned admitted)
        × ((release (enter g).0).in_flight ≡ g.in_flight)
        × ((publish_admission_gauges r (enter g).0).requests_running
            ≡ (release (enter g).0).in_flight + 1)
  unfolding publish_admission_gauges set_requests_running set_requests_waiting enter release
  running_gauge_stale r g nobody room =
      let free : ltb g.in_flight g.max_concurrent ≡ true = ground arith in
      rw (free, nobody) (refl, omega arith, omega arith)

-- ===== src/Health/Checker/Tests.antt =====
-- Probe rounds on concrete answers.
use kvmux.Prelude.{◌≡◌, refl, true, List, [], ◌∷◌, if◌then◌else◌, Bytes, codes, equal}
use kvmux.Upstream.Target.{Target}
use kvmux.Upstream.Client.{answered, unanswered}
use kvmux.Health.Checker.{
  not_ready, dead, vllm, ProbeResult, starts_with, found_in, evaluate_ollama,
}
use kvmux.Health.Checker.Monitoring.{
  Network, over, spawn, stop, Event, resumed, probed, step, run, stop-over,
}

abbrev ok : Bytes → ProbeResult
ok body = record { connected = true; http_status = 200; body = body }

abbrev greeting : Bytes
greeting = codes "> Ollama is running"

abbrev where_it_is : Target
where_it_is = record { host = codes "gpu0"; port = codes "8000" }

-- `/` shows the banner, every other path is answered with an empty body.
abbrev ready : Network
ready request = if equal request.path (codes "/") then answered 200 greeting else answered 200 []

-- A probe that finds the backend ready, and the end of the interval.
abbrev one_round : List Event
one_round = resumed ∷ probed ready ∷ resumed ∷ []

abbrev silent : Network
silent request = unanswered

stop-over_example :
    ((run one_round (stop (spawn vllm where_it_is))).begun ≡ 0)
    × ((step resumed (step (probed silent) (run one_round (stop (spawn vllm where_it_is))))).phase
        ≡ over)
stop-over_example = stop-over (spawn vllm where_it_is) one_round silent

-- Without the banner a backend is dead, with it and no model list it is not ready.
no_banner : evaluate_ollama (ok (codes "nginx")) (ok []) ≡ dead
unfolding evaluate_ollama found_in starts_with
no_banner = refl

no_models :
    evaluate_ollama (ok greeting) (record { connected = true; http_status = 500; body = [] })
    ≡ not_ready
unfolding evaluate_ollama found_in starts_with
no_models = refl

-- ===== src/Server/Listener/Tests.antt =====
-- A client that goes on sending when the gateway drains, and accept loops.
use kvmux.Prelude.{
  ℕ, ◌≡◌, refl, ◌⊎◌, Bool, true, false, Option, none, some, List, [], ◌∷◌, ◌++◌, Bytes, codes,
  equal,
}
use kvmux.Server.Gateway.Attempt.{Reply, json_reply}
use kvmux.Server.Gateway.Tests.{pair, plain}
use kvmux.Server.Gateway.Routes.{Method, get, post, route_of, serve_route, handle}
use kvmux.Server.Listener.{
  closed, broken, run_session, socket, aborted, failed, run_listener, metrics_response,
  run_metrics_session, run_metrics_listener,
}
use kvmux.Server.Listener.Sessions.{shutting_down, Turn, gateway_session, gateway_session-drained}

abbrev no_chat : Bool → Unit {0} × Reply
no_chat keep_alive = (tt, json_reply 200 [] keep_alive)

abbrev turn : Bool → Method → Bytes → Option (Turn (Unit {0}) × Bool)
turn draining method target = some (
  record {
    method = method;
    target = target;
    draining = draining;
    backends = pair;
    in_flight = 3;
    chat = no_chat;
    others = λ n. n;
    written = true;
  },
  true,
)

-- The drain begins after the first of three requests.
abbrev early : List (Option (Turn (Unit {0}) × Bool))
early = turn false get (codes "/healthz") ∷ []

abbrev late : List (Option (Turn (Unit {0}) × Bool))
late = turn true get (codes "/healthz") ∷ turn true post (codes "/v1/chat/completions") ∷ []

gateway_session-drained_example :
    ((gateway_session plain (early ++ late)).0 ≡ (gateway_session plain early).0)
    ⊎ (gateway_session plain (early ++ late)
        ≡ ((gateway_session plain early).0 ++ shutting_down plain ∷ [], closed))
gateway_session-drained_example = gateway_session-drained plain early late (refl, (refl, tt))

-- Two of the three are answered.
two_answered :
    gateway_session plain (early ++ late)
    ≡ (json_reply 200 (codes "{\"status\":\"ok\"}") true ∷ shutting_down plain ∷ [], closed)
unfolding run_session handle serve_route route_of equal
two_answered = refl

-- An error on accept is passed over; an abort ends the loop.
accepts : run_listener {Socket = ℕ} (failed ∷ socket 1 ∷ aborted ∷ socket 2 ∷ []) ≡ 1 ∷ []
unfolding run_listener
accepts = refl

-- A scrape, a failed accept, a connection that breaks off, and a wrong path.
scrapes :
    run_metrics_listener (
      socket (codes "m 1", some (get, codes "/metrics"))
      ∷ failed
      ∷ socket ([], none)
      ∷ socket ([], some (post, codes "/metrics"))
      ∷ aborted
      ∷ socket ([], none)
      ∷ [])
    ≡ (metrics_response (codes "m 1") get (codes "/metrics") ∷ [], closed)
      ∷ ([], broken)
      ∷ (metrics_response [] post (codes "/metrics") ∷ [], closed)
      ∷ []
unfolding run_metrics_listener run_metrics_session
scrapes = refl

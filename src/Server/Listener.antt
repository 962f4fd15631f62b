-- ===== src/Server/Listener.antt =====
-- src/server/listener.cpp: the session loop, the accept loops and the metrics endpoint. What a connection's
-- reads give, and what an acceptor's waits give, are lists.
pub mod Sessions
pub mod Tests
use kvmux.Prelude.{
  ℕ, ◌/◌, Bool, true, false, ◌&&◌, Option, none, some, List, [], ◌∷◌, if◌then◌else◌, Bytes, codes,
  equal,
}
use kvmux.Server.Gateway.Routes.{Method, get}

-- How a session stands after the reads that it was given.
pub data Ended : Type 0 where
  -- the loop is over: by `keep_alive`, or by an exception
  closed : Ended
  broken : Ended
  -- the next read has not come
  waiting : Ended

module _ {ℓ κ} {Req : Type ℓ} {Res : Type κ} where
  -- The loop of `run_session`. `handle` gives what the request is answered with, and whether the connection
  -- is kept, or `none` for an exception; a read gives a request with its `keep_alive`, or `none` where it
  -- throws.
  unfoldable pub run_session :
      (Req → Bool → Option (Res × Bool)) → List (Option (Req × Bool)) → List Res × Ended
  run_session handle [] = ([], waiting)
  run_session handle (none ∷ reads) = ([], broken)
  run_session handle (some (req, keep_alive) ∷ reads) =
      let (later, ended) = run_session handle reads in
      elim (handle req keep_alive) [
        | none ↦ ([], broken)
        | some x ↦ let (res, kept) = x in if kept then (res ∷ later, ended) else (res ∷ [], closed)
      ]

-- What an `async_accept` gives.
pub data Accept {ℓ} (Socket : Type ℓ) : Type ℓ where
  socket : Socket → Accept Socket
  aborted : Accept Socket
  failed : Accept Socket

-- The accept loop: the sockets for which a session is spawned.
unfoldable pub run_listener {ℓ} : {Socket : Type ℓ} → List (Accept Socket) → List Socket
run_listener [] = []
run_listener (socket s ∷ accepts) = s ∷ run_listener accepts
run_listener (aborted ∷ accepts) = []
run_listener (failed ∷ accepts) = run_listener accepts

-- The response of the metrics endpoint: status, content type and body.
pub record Response : Type 0 where
  pub result : ℕ
  pub content_type : Bytes
  pub body : Bytes

abbrev pub is_get : Method → Bool
is_get get = true
is_get _ = false

-- The request of `run_metrics_session` is answered with the metrics or with 404; the connection then closes.
unfoldable pub metrics_response : Bytes → Method → Bytes → Response
metrics_response metrics method target =
    if is_get method && equal target (codes "/metrics")
    then record {
      result = 200;
      content_type = codes "text/plain; version=0.0.4; charset=utf-8";
      body = metrics;
    }
    else record {
      result = 404;
      content_type = codes "application/json";
      body =
          codes "{\"error\":{\"message\":\"not found\",\"type\":\"not_found_error\",\"code\":404}}";
    }

-- A metrics connection: `none` for a read that throws. One response at most, with `keep_alive(false)`.
unfoldable pub run_metrics_session : Bytes → Option (Method × Bytes) → List Response × Ended
unfolding metrics_response
run_metrics_session metrics none = ([], broken)
run_metrics_session metrics (some (method, target)) =
    (metrics_response metrics method target ∷ [], closed)

-- The accept loop of the metrics port: the responses to all its connections, from what each one's read gave
-- and what `render_metrics` gave then.
unfoldable pub run_metrics_listener :
    List (Accept (Bytes × Option (Method × Bytes))) → List (List Response × Ended)
unfolding run_metrics_session
run_metrics_listener [] = []
run_metrics_listener (socket (metrics, request) ∷ accepts) =
    run_metrics_session metrics request ∷ run_metrics_listener accepts
run_metrics_listener (aborted ∷ accepts) = []
run_metrics_listener (failed ∷ accepts) = run_metrics_listener accepts

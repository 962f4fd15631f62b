-- ===== src/Server/Gateway/Chat.antt =====
-- `handle_chat` of src/server/gateway.cpp around the walk. The parsed request, the outcome of
-- admission and the policy's ordering function are arguments.
use kvmux.Prelude.{ℕ, Bool, Option, none, some, List, [], ◌∷◌, ◌++◌, Bytes, codes}
use kvmux.Admission.Gate.{AdmitStatus, admitted, queue_full, queue_timeout}
use kvmux.Routing.{Candidate, RouteOrder}
use kvmux.OpenAi.Errors.{ErrorKind, invalid_request, unknown_model, admission, no_backend}
use kvmux.Server.Gateway.{Backend, backends_for_model, candidates_of}
use kvmux.Server.Gateway.Attempt.{Render, Reply, json_reply, sse_reply, raised}
use kvmux.Server.Gateway.Walk.{Round, Walk, walk}

-- What parsing the body gave: no JSON, a `RequestError` with its status and rendered body, or a request.
pub data Parsed : Type 0 where
  bad_json : Parsed
  invalid : ℕ → Bytes → Parsed
  chat : Bytes → Bool → Parsed

-- The handler's result: the backends, what was told to the registry, the reply, and the status that the
-- terminal recorder counts (0 for none).
pub record Handled : Type 0 where
  pub walk_state : Walk
  pub reply : Reply
  pub final_code : ℕ

-- The status in the reply; an exception leaves before there is one.
abbrev pub code_of : Reply → ℕ
code_of (json_reply status body keep) = status
code_of (sse_reply w keep) = 200
code_of (raised w) = 0

abbrev pub walk0 : List Backend → Walk
walk0 bs = record {
  backends = bs;
  attempts = 0;
  dispatched = [];
  failures = [];
  spilled = [];
  final_code = 0;
}

module _ (js : Render) (keep_alive : Bool) where
  abbrev pub refuse : List Backend → ErrorKind → ℕ → Bytes → Bytes → Handled
  refuse bs kind status message param = record {
    walk_state = walk0 bs;
    reply = json_reply status (js.error_json kind message param) keep_alive;
    final_code = status;
  }

  -- After the loop: a reply, or all candidates exhausted.
  unfoldable pub settle : Walk × Option Reply → Handled
  settle (w, some r) = record { walk_state = w; reply = r; final_code = w.final_code }
  settle (w, none) = record {
    walk_state = w;
    reply =
        json_reply 503
          (js.error_json no_backend (codes "no eligible backend could serve the request") [])
          keep_alive;
    final_code = 503;
  }

  -- From the candidates on.
  unfoldable pub route_chat :
      (List Candidate → RouteOrder)
      → (ℕ → Round)
      → Bool
      → Bytes
      → List Backend
      → List Candidate
      → Handled
  unfolding settle
  route_chat route rounds stream model bs [] =
      refuse bs no_backend 503 (codes "no eligible backend for model '" ++ (model ++ codes "'")) []
  route_chat route rounds stream model bs (c ∷ cs) =
      let ordered = route (c ∷ cs) in
      settle (
        walk js (record { stream = stream; keep_alive = keep_alive; spills = ordered.spills })
          rounds 0 ordered.order (walk0 bs))

  unfoldable pub admit_chat :
      (List Candidate → RouteOrder)
      → (ℕ → Round)
      → AdmitStatus
      → Bool
      → Bytes
      → List Backend
      → List ℕ
      → Handled
  unfolding route_chat
  admit_chat route rounds status stream model bs [] =
      refuse bs unknown_model 404 (codes "no backend serves model '" ++ (model ++ codes "'"))
        (codes "model")
  admit_chat route rounds queue_full stream model bs (i ∷ is) =
      refuse bs admission 429 (codes "admission queue is full") []
  admit_chat route rounds queue_timeout stream model bs (i ∷ is) =
      refuse bs admission 429 (codes "admission queue wait timed out") []
  admit_chat route rounds admitted stream model bs (i ∷ is) =
      route_chat route rounds stream model bs (candidates_of bs (i ∷ is))

  unfoldable pub handle_chat :
      (List Candidate → RouteOrder) → (ℕ → Round) → AdmitStatus → Parsed → List Backend → Handled
  unfolding admit_chat
  handle_chat route rounds status bad_json bs =
      refuse bs invalid_request 400 (codes "invalid JSON body") []
  handle_chat route rounds status (invalid code body) bs = record {
    walk_state = walk0 bs;
    reply = json_reply code body keep_alive;
    final_code = code;
  }
  handle_chat route rounds status (chat model stream) bs =
      admit_chat route rounds status stream model bs (backends_for_model bs model)

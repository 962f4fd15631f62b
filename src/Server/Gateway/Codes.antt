-- ===== src/Server/Gateway/Codes.antt =====
-- The status that `handle_chat` records, and what it does before it is admitted.
use kvmux.Prelude.{◌≡◌, refl, ◌≢◌, ◌⊎◌, inl, inr, Bool, Option, none, some, List, [], ◌∷◌, Bytes, ℕ}
use kvmux.Admission.Gate.{AdmitStatus, admitted, queue_full, queue_timeout}
use kvmux.Routing.{Candidate, RouteOrder}
use kvmux.Server.Gateway.{Backend, backends_for_model, candidates_of}
use kvmux.Server.Gateway.Attempt.{Render, Reply}
use kvmux.Server.Gateway.Walk.{Round, Walk, Request, walk}
use kvmux.Server.Gateway.Answered.{WalkCoded, walk-WalkCoded}
use kvmux.Server.Gateway.Chat.{
  Parsed, bad_json, invalid, chat, code_of, walk0, settle, route_chat, admit_chat, handle_chat,
}

module _ (js : Render) (keep_alive : Bool) (route : List Candidate → RouteOrder)
    (rounds : ℕ → Round) where
  settle-code :
      (x : Walk × Option Reply)
      → WalkCoded x
      → (settle js keep_alive x).final_code ≡ code_of (settle js keep_alive x).reply
  unfolding settle
  settle-code (w, none) coded = refl
  settle-code (w, some r) coded = coded

  -- The status that is counted for a request is the one that the client was sent, on every path of the
  -- handler, early refusals and exhausted candidates included; it is 0 where an exception leaves it.
  pub handle_chat-code :
      (status : AdmitStatus) (parsed : Parsed) (bs : List Backend)
      → (handle_chat js keep_alive route rounds status parsed bs).final_code
        ≡ code_of (handle_chat js keep_alive route rounds status parsed bs).reply
  unfolding handle_chat admit_chat route_chat
  handle_chat-code status bad_json bs = refl
  handle_chat-code status (invalid code body) bs = refl
  handle_chat-code status (chat model stream) bs =
      admitted_code (backends_for_model bs model) status
    where
      routed_code :
          (cs : List Candidate)
          → (route_chat js keep_alive route rounds stream model bs cs).final_code
            ≡ code_of (route_chat js keep_alive route rounds stream model bs cs).reply
      routed_code [] = refl
      routed_code (c ∷ cs) =
          let ordered = route (c ∷ cs) in
          let req : Request = record {
            stream = stream;
            keep_alive = keep_alive;
            spills = ordered.spills;
          } in
          settle-code (walk js req rounds 0 ordered.order (walk0 bs))
            (walk-WalkCoded js req rounds 0 ordered.order (walk0 bs))

      admitted_code :
          (is : List ℕ) (st : AdmitStatus)
          → (admit_chat js keep_alive route rounds st stream model bs is).final_code
            ≡ code_of (admit_chat js keep_alive route rounds st stream model bs is).reply
      admitted_code [] st = refl
      admitted_code (i ∷ is) queue_full = refl
      admitted_code (i ∷ is) queue_timeout = refl
      admitted_code (i ∷ is) admitted = routed_code (candidates_of bs (i ∷ is))

  -- A request that the gate turns away reaches no backend: nothing is dispatched, the backends stay as they
  -- are, and the reply is 429, or 404 if no backend serves the model.
  pub handle_chat-refused :
      (status : AdmitStatus) (model : Bytes) (stream : Bool) (bs : List Backend)
      → status ≢ admitted
      → ((handle_chat js keep_alive route rounds status (chat model stream) bs).walk_state
          ≡ walk0 bs)
        × (((handle_chat js keep_alive route rounds status (chat model stream) bs).final_code ≡ 429)
            ⊎ (((handle_chat js keep_alive route rounds status (chat model stream) bs).final_code
                  ≡ 404)
                × (backends_for_model bs model ≡ [])))
  unfolding handle_chat admit_chat
  handle_chat-refused status model stream bs turned =
      refused (backends_for_model bs model) status turned
    where
      refused :
          (is : List ℕ) (st : AdmitStatus)
          → st ≢ admitted
          → ((admit_chat js keep_alive route rounds st stream model bs is).walk_state ≡ walk0 bs)
            × (((admit_chat js keep_alive route rounds st stream model bs is).final_code ≡ 429)
                ⊎ (((admit_chat js keep_alive route rounds st stream model bs is).final_code ≡ 404)
                    × (is ≡ [])))
      refused [] st turned_away = (refl, inr (refl, refl))
      refused (i ∷ is) queue_full turned_away = (refl, inl refl)
      refused (i ∷ is) queue_timeout turned_away = (refl, inl refl)
      refused (i ∷ is) admitted turned_away = elim (turned_away refl) [ ]

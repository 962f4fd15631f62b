-- ===== src/Server/Gateway/Serve/Refusals.antt =====
-- The replies to requests that are sent to no backend.
use kvmux.Prelude.{
  ℕ, ◌+◌, ◌≡◌, refl, sym, ◌∙◌, ◌≢◌, ◌⊎◌, inl, inr, Bool, not, Option, none, some, List, [], ◌∷◌,
  ◌++◌, leb, either, either_some, match_some, get_elem?, Bytes, is_empty,
}
use kvmux.Prelude.Double.{Double}
use kvmux.Prelude.Result.{Result, ok, err}
use kvmux.Config.{RoutingConfig}
use kvmux.Health.Breaker.{allow_request}
use kvmux.Admission.Gate.{AdmitStatus, admitted, queue_full, queue_timeout}
use kvmux.Admission.Limiter.{try_acquire}
use kvmux.OpenAi.Errors.{
  ErrorKind, status_code, error_type, invalid_request, unknown_model, no_backend, admission,
}
use kvmux.OpenAi.Bodies.{make_error}
use kvmux.OpenAi.Bodies.Shapes.{IsErrorBody, make_error-IsErrorBody}
use kvmux.OpenAi.Json.{Json, Laws}
use kvmux.OpenAi.Request.{RequestError, ChatCompletionRequest, parse}
use kvmux.OpenAi.Request.Blame.{parse-Blames}
use kvmux.Routing.{Candidate, RouteOrder}
use kvmux.Routing.RoundRobin.{RoundRobin}
use kvmux.Server.Gateway.{Backend, backends_for_model, candidates_of}
use kvmux.Server.Gateway.Attempt.{Render, Reply, json_reply}
use kvmux.Server.Gateway.Walk.{
  Round, Walk, Request, record_spills, conclude, dispatch, admit, visit, walk,
}
use kvmux.Server.Gateway.Chat.{walk0, settle, route_chat, admit_chat, handle_chat, Handled}
use kvmux.Server.Gateway.Serve.{
  render, Body, not_json, refused, request, checked, read_body, route_of, parsed_of, handle_text,
}

-- Whoever has a reply has dispatched.
abbrev Answers : Walk × Option Reply → Type 0
Answers (w, r) = (r ≡ none) ⊎ (w.dispatched ≢ [])

append-some : (xs : List ℕ) (i : ℕ) → xs ++ i ∷ [] ≢ []
append-some [] i e = cc
append-some (x ∷ xs) i e = cc

module _ (js : Render) (req : Request) where
  visit-Answers : (i : ℕ) (r : Round) (more : Bool) (w : Walk) → Answers (visit js req i r more w)
  unfolding visit admit dispatch conclude
  visit-Answers i r more w = either_some Answers (get_elem? w.backends i) (inl refl) (λ b.
      let (breaker, dec) = allow_request b.breaker r.asked in
      either Answers (not dec.allowed) (inl refl) (
        either Answers (try_acquire b.limiter).1
          (inr (append-some (record_spills req b w).dispatched i)) (inl refl)))

  walk-Answers :
      (rounds : ℕ → Round) (pos : ℕ) (is : List ℕ) (w : Walk)
      → Answers (walk js req rounds pos is w)
  unfolding walk
  walk-Answers rounds pos [] w = inl refl
  walk-Answers rounds pos (i ∷ is) w =
      let here = visit-Answers i (rounds pos) (not (is_empty is)) w in
      let later =
        walk-Answers rounds (pos + 1) is (visit js req i (rounds pos) (not (is_empty is)) w).0 in
      either Answers (leb 2 w.attempts) (inl refl) (
        match_some Answers (visit js req i (rounds pos) (not (is_empty is)) w).1 (λ e. later)
          (λ r e. elim here [ inl gone ↦ inl (sym e ∙ gone) | inr sent ↦ inr sent ]))

module _ (J : Json) where
  -- An error of the gateway's own: an error body of some kind, with the status of that kind.
  abbrev IsMadeError : Bool → Reply → Type 0
  IsMadeError keep_alive r =
      (kind : ErrorKind) × (message : Bytes) × (param : Bytes) × (r
        ≡ json_reply (status_code kind) (J.dump (make_error J kind message param)) keep_alive)

  -- Spelled out: a reply whose body renders an error object that repeats the reply's status.
  abbrev pub IsOwnError : Bool → Reply → Type 0
  IsOwnError keep_alive r =
      (kind : ErrorKind) × (message : Bytes) × (param : Json.Value J) × (body : Json.Value J) × (r
        ≡ json_reply (status_code kind) (J.dump body) keep_alive)
      × IsErrorBody J body message (error_type kind) param (status_code kind)

  abbrev Own : Bool → Handled → Type 0
  Own keep_alive h = h.walk_state.dispatched ≡ [] → IsMadeError keep_alive h.reply

  module _ (keep_alive : Bool) (route : List Candidate → RouteOrder) (rounds : ℕ → Round) where
    settle-Own :
        (x : Walk × Option Reply) → Answers x → Own keep_alive (settle (render J) keep_alive x)
    unfolding settle render status_code
    settle-Own (w, none) h d = (no_backend, _, _, refl)
    settle-Own (w, some r) (inl e) d = cc
    settle-Own (w, some r) (inr sent) d = elim (sent d) [ ]

    route_chat-Own :
        (stream : Bool) (model : Bytes) (bs : List Backend) (cs : List Candidate)
        → Own keep_alive (route_chat (render J) keep_alive route rounds stream model bs cs)
    unfolding route_chat render status_code
    route_chat-Own stream model bs [] d = (no_backend, _, _, refl)
    route_chat-Own stream model bs (c ∷ cs) d =
        let ordered = route (c ∷ cs) in
        settle-Own _
          (walk-Answers (render J)
            (record { stream = stream; keep_alive = keep_alive; spills = ordered.spills }) rounds 0
            ordered.order (walk0 bs))
          d

    admit_chat-Own :
        (status : AdmitStatus) (stream : Bool) (model : Bytes) (bs : List Backend) (is : List ℕ)
        → Own keep_alive (admit_chat (render J) keep_alive route rounds status stream model bs is)
    unfolding admit_chat render status_code
    admit_chat-Own status stream model bs [] d = (unknown_model, _, _, refl)
    admit_chat-Own queue_full stream model bs (i ∷ is) d = (admission, _, _, refl)
    admit_chat-Own queue_timeout stream model bs (i ∷ is) d = (admission, _, _, refl)
    admit_chat-Own admitted stream model bs (i ∷ is) d =
        route_chat-Own stream model bs (candidates_of bs (i ∷ is)) d

  module _ (fp : Double) (xxh64 : Bytes → ℕ) (routing : RoutingConfig fp) (rr : RoundRobin)
      (keep_alive : Bool) (rounds : ℕ → Round) (status : AdmitStatus) where
    body-Own :
        (body : Body J) (bs : List Backend)
        → Own keep_alive (
            handle_chat
              (render J)
              keep_alive
              (route_of J fp xxh64 routing rr body)
              rounds
              status
              (parsed_of J fp xxh64 routing rr body)
              bs)
    unfolding handle_chat render status_code
    body-Own not_json bs d = (invalid_request, _, _, refl)
    body-Own (refused e) bs d = (e.kind, e.message, e.param, refl)
    body-Own (request req) bs d =
        admit_chat-Own keep_alive (route_of J fp xxh64 routing rr (request req)) rounds status
          req.stream req.model bs (backends_for_model bs req.model) d

    -- A request that is sent to no backend, for whatever reason, is answered with an error of the gateway's
    -- own: a JSON object whose `error` is an object with a message, the type of the error's kind, a param,
    -- and as code the HTTP status of the reply, which is the one of the kind.
    pub handle_text-IsOwnError :
        (laws : Laws J) (text : Bytes) (bs : List Backend)
        → (handle_text J fp xxh64 routing rr keep_alive rounds status text bs).walk_state.dispatched
          ≡ []
        → IsOwnError keep_alive
            (handle_text J fp xxh64 routing rr keep_alive rounds status text bs).reply
    unfolding handle_text
    handle_text-IsOwnError laws text bs unsent =
        let (kind, message, param, e) = body-Own (read_body J text) bs unsent in
        (kind, message, _, _, e, make_error-IsErrorBody J laws kind message param)

    -- A text that is no JSON, and a body that `parse` refuses, are answered with status 400 and the body of
    -- an invalid request; no backend is touched.
    pub handle_text-refused :
        (text : Bytes) (bs : List Backend)
        → ((req : ChatCompletionRequest J) → read_body J text ≢ request req)
        → ((handle_text J fp xxh64 routing rr keep_alive rounds status text bs).walk_state
            ≡ walk0 bs)
          × (message : Bytes) × (param : Bytes) × ((handle_text J fp xxh64 routing rr keep_alive
                rounds status text bs).reply
              ≡ json_reply 400 (J.dump (make_error J invalid_request message param)) keep_alive)
    unfolding handle_text read_body handle_chat render status_code
    handle_text-refused text bs none_read = of_body (J.parse text) none_read
      where
        run : Body J → Handled
        run body =
            handle_chat (render J) keep_alive (route_of J fp xxh64 routing rr body) rounds status
              (parsed_of J fp xxh64 routing rr body) bs

        Refused : Body J → Type 0
        Refused body =
            ((run body).walk_state ≡ walk0 bs)
            × (message : Bytes) × (param : Bytes) × ((run body).reply
                ≡ json_reply 400 (J.dump (make_error J invalid_request message param)) keep_alive)

        of_result :
            (b : Json.Value J) (r : Result RequestError (ChatCompletionRequest J))
            → parse J b ≡ r
            → ((req : ChatCompletionRequest J) → checked J r ≢ request req)
            → Refused (checked J r)
        of_result b (ok req) p h = elim (h req refl) [ ]
        of_result b (err e) p h = (refl, e.message, e.param, rw (parse-Blames J b e p).0 refl)

        of_body :
            (o : Option (Json.Value J))
            → ((req : ChatCompletionRequest J)
                → elim o as (λ x. Body J) [ none ↦ not_json | some b ↦ checked J (parse J b) ]
                  ≢ request req)
            → Refused (elim o as (λ x. Body J) [ none ↦ not_json | some b ↦ checked J (parse J b) ])
        of_body none h = (refl, _, _, refl)
        of_body (some b) h = of_result b (parse J b) refl h

-- ===== src/Server/Gateway/Served.antt =====
-- From the candidates to the backends that a chat request is sent to.
use mathlib.Core.List.{Mem, not-mem-nil, Memᴰ}
use mathlib.Core.Logic.{∥∥₁_map}
use kvmux.Prelude.{◌≡◌, refl, Bool, Option, none, some, List, [], ◌∷◌, map, Bytes, ℕ}
use kvmux.Admission.Gate.{AdmitStatus, admitted, queue_full, queue_timeout}
use kvmux.Routing.{Candidate, RouteOrder}
use kvmux.Server.Gateway.{Backend, backends_for_model, candidates_of}
use kvmux.Server.Gateway.Attempt.{Render, Reply}
use kvmux.Server.Gateway.Walk.{Round, Walk, Request, walk}
use kvmux.Server.Gateway.Chat.{chat, walk0, settle, route_chat, admit_chat, handle_chat}
use kvmux.Server.Gateway.Dispatches.{IsSubseq, done, kept, dropped, walk-IsSubseq}

abbrev pub indices : List Candidate → List ℕ
indices cs = map (λ c. c.backend_index) cs

IsSubseq-mem : {xs ys : List ℕ} (i : ℕ) → IsSubseq xs ys → Memᴰ i xs → Memᴰ i ys
IsSubseq-mem i done m = m
IsSubseq-mem i (kept x s) (Memᴰ.head e) = Memᴰ.head e
IsSubseq-mem i (kept x s) (Memᴰ.tail m) = Memᴰ.tail (IsSubseq-mem i s m)
IsSubseq-mem i (dropped y s) m = Memᴰ.tail (IsSubseq-mem i s m)

module _ (js : Render) (keep_alive : Bool) (route : List Candidate → RouteOrder)
    (rounds : ℕ → Round)
    (within : (cs : List Candidate) (i : ℕ) → Mem i (route cs).order → Mem i (indices cs)) where
  settle-dispatched :
      (x : Walk × Option Reply) → (settle js keep_alive x).walk_state.dispatched ≡ x.0.dispatched
  unfolding settle
  settle-dispatched (w, none) = refl
  settle-dispatched (w, some r) = refl

  route_chat-dispatched :
      (stream : Bool) (model : Bytes) (bs : List Backend) (cs : List Candidate) (i : ℕ)
      → Mem i (route_chat js keep_alive route rounds stream model bs cs).walk_state.dispatched
      → Mem i (indices cs)
  unfolding route_chat
  route_chat-dispatched stream model bs [] i m = m
  route_chat-dispatched stream model bs (c ∷ cs) i m =
      let ordered = route (c ∷ cs) in
      let req : Request = record {
        stream = stream;
        keep_alive = keep_alive;
        spills = ordered.spills;
      } in
      let walked = walk js req rounds 0 ordered.order (walk0 bs) in
      let sub = (walk-IsSubseq js req rounds ordered.order bs).0 in
      let m' : Mem i walked.0.dispatched = rw⁻¹ (settle-dispatched walked) m in
      within (c ∷ cs) i (∥∥₁_map {B = Memᴰ i ordered.order} m' (IsSubseq-mem i sub))

  admit_chat-dispatched :
      (status : AdmitStatus) (stream : Bool) (model : Bytes) (bs : List Backend) (is : List ℕ)
      (i : ℕ)
      → Mem i
          (admit_chat js keep_alive route rounds status stream model bs is).walk_state.dispatched
      → Mem i (indices (candidates_of bs is))
  unfolding admit_chat candidates_of
  admit_chat-dispatched status stream model bs [] i m = m
  admit_chat-dispatched queue_full stream model bs (j ∷ is) i m = elim (not-mem-nil m) [ ]
  admit_chat-dispatched queue_timeout stream model bs (j ∷ is) i m = elim (not-mem-nil m) [ ]
  admit_chat-dispatched admitted stream model bs (j ∷ is) i m =
      route_chat-dispatched stream model bs (candidates_of bs (j ∷ is)) i m

  -- If the policy's order lists indices of candidates only, a chat request is sent to candidates only,
  -- whatever the gate, the upstreams and the other requests do.
  pub handle_chat-dispatched :
      (status : AdmitStatus) (stream : Bool) (model : Bytes) (bs : List Backend) (i : ℕ)
      → Mem i
          (handle_chat js keep_alive route rounds status
            (chat model stream)
            bs).walk_state.dispatched
      → Mem i (indices (candidates_of bs (backends_for_model bs model)))
  unfolding handle_chat
  handle_chat-dispatched status stream model bs i m =
      admit_chat-dispatched status stream model bs (backends_for_model bs model) i m

-- ===== src/Server/Gateway/Answered.antt =====
-- The status that `handle_chat` sets by hand on each branch is the one of the reply of that branch.
use kvmux.Prelude.{
  ℕ, ◌+◌, ◌≡◌, refl, inl, inr, Bool, true, false, not, ◌&&◌, ◌||◌, Option, none, some, List, [],
  ◌∷◌, arith, ltb, leb, if◌then◌else◌, Option-cases, either, either_some, match_some, ltb, ◌&&◌,
  is_empty, get_elem?, Bytes,
}
use kvmux.Health.Breaker.{CircuitBreaker, allow_request}
use kvmux.Admission.Limiter.{try_acquire}
use kvmux.Upstream.Client.{StreamResult, UnaryResult, stream_chat, post_chat}
use kvmux.Server.SseWriter.{begin, end}
use kvmux.Server.Gateway.Attempt.{
  Render, Reply, json_reply, Ending, first_write, Sink, sink0, frame_sink, unary_attempt,
  zero_byte_reply, zero_byte_code, empty_stream_reply, empty_stream_code, failed_early,
  stream_ending, stream_attempt,
}
use kvmux.Server.Gateway.{Backend}
use kvmux.Server.Gateway.Walk.{
  max_attempts, record_spills, Round, Walk, Request, conclude, dispatch, admit, visit, walk,
  attempt,
}
use kvmux.Server.Gateway.Chat.{code_of}

-- The status that is set when there is a reply.
abbrev pub CodedAs : ℕ → Option Reply → Type 0
CodedAs code none = Unit
CodedAs code (some r) = code ≡ code_of r

abbrev IsCoded : Ending → Type 0
IsCoded e = CodedAs e.code e.reply

abbrev pub WalkCoded : Walk × Option Reply → Type 0
WalkCoded x = CodedAs x.0.final_code x.1

retried :
    (more : Bool) (code : ℕ) (r : Reply)
    → code ≡ code_of r
    → CodedAs (if more then 0 else code) (if more then none else some r)
retried true code r e = tt
retried false code r e = e

graded :
    (b : Bool) (status : ℕ) (error body : Bytes) (keep_alive : Bool)
    → (if b then status else 200)
      ≡ code_of (if b then json_reply status error keep_alive else json_reply 200 body keep_alive)
graded true status error body keep_alive = refl
graded false status error body keep_alive = refl

module _ (js : Render) where
  unary_attempt-IsCoded :
      (b : CircuitBreaker) (is_probe : Bool) (now : ℕ) (more keep_alive : Bool) (ur : UnaryResult)
      → IsCoded (unary_attempt js b is_probe now more keep_alive ur)
  unfolding unary_attempt
  unary_attempt-IsCoded b is_probe now more keep_alive ur = either IsCoded (not ur.connected) tt (
      either IsCoded (leb 500 ur.http_status) (retried more ur.http_status _ refl) (
        graded (leb 400 ur.http_status) ur.http_status (js.wrapped ur.body ur.http_status) ur.body
          keep_alive))

  zero_byte-code :
      (keep_alive : Bool) (sr : StreamResult)
      → zero_byte_code js sr ≡ code_of (zero_byte_reply js keep_alive sr)
  unfolding zero_byte_code zero_byte_reply
  zero_byte-code keep_alive sr = ground arith

  empty_stream-code :
      (keep_alive : Bool) (s : Sink)
      → empty_stream_code js s ≡ code_of (empty_stream_reply js keep_alive s)
  unfolding empty_stream_code empty_stream_reply
  empty_stream-code keep_alive s = elim (Option-cases (begin (first_write s.wire) s.writer)) [
    | inl e ↦ rw (empty_stream_code, empty_stream_reply, e) refl
    | inr (w, e) ↦ rw (empty_stream_code, empty_stream_reply, e) refl
  ]

  stream_ending-IsCoded :
      (b : CircuitBreaker) (is_probe : Bool) (now : ℕ) (more keep_alive : Bool) (s : Sink)
      (sr : StreamResult)
      → IsCoded (stream_ending js b is_probe now more keep_alive s sr)
  unfolding stream_ending
  stream_ending-IsCoded b is_probe now more keep_alive s sr =
      either IsCoded (not s.header_started)
        (either IsCoded (failed_early js sr)
          (retried more (zero_byte_code js sr) (zero_byte_reply js keep_alive sr)
            (zero_byte-code keep_alive sr))
          (empty_stream-code keep_alive s))
        (either IsCoded s.downstream_dead refl (
          either IsCoded (sr.upstream_aborted || sr.timed_out) refl (
            match_some (λ r. 200 ≡ code_of r) (end (first_write s.wire) s.writer) (λ e. refl)
              (λ w e. refl))))

  module _ (req : Request) where
    attempt-IsCoded :
        (b : CircuitBreaker) (is_probe : Bool) (r : Round) (more : Bool)
        → IsCoded (attempt js req b is_probe r more)
    unfolding attempt stream_attempt
    attempt-IsCoded b is_probe r more =
        either IsCoded (not req.stream)
          (unary_attempt-IsCoded b is_probe r.reported more req.keep_alive (post_chat r.unary))
          (let (s, sr) = stream_chat frame_sink (sink0 req.keep_alive r.wire) r.exchange in
            stream_ending-IsCoded b is_probe r.reported more req.keep_alive s sr)

    dispatch-WalkCoded :
        (i : ℕ) (b : Backend) (is_probe : Bool) (r : Round) (more : Bool) (w : Walk)
        → WalkCoded (dispatch js req i b is_probe r more w)
    unfolding dispatch conclude
    dispatch-WalkCoded i b is_probe r more w =
        attempt-IsCoded (r.others i b).breaker is_probe r
          (ltb (w.attempts + 1) max_attempts && more)

    visit-WalkCoded :
        (i : ℕ) (r : Round) (more : Bool) (w : Walk) → WalkCoded (visit js req i r more w)
    unfolding visit admit
    visit-WalkCoded i r more w = either_some WalkCoded (get_elem? w.backends i) tt (λ b.
        let (breaker, dec) = allow_request b.breaker r.asked in
        either WalkCoded (not dec.allowed) tt (
          either WalkCoded (try_acquire b.limiter).1
            (dispatch-WalkCoded i
              (record b { breaker = breaker; limiter = (try_acquire b.limiter).0 }) dec.is_probe r
              more (record_spills req b w))
            tt))

    pub walk-WalkCoded :
        (rounds : ℕ → Round) (pos : ℕ) (is : List ℕ) (w : Walk)
        → WalkCoded (walk js req rounds pos is w)
    unfolding walk
    walk-WalkCoded rounds pos [] w = tt
    walk-WalkCoded rounds pos (i ∷ is) w =
        let here = visit-WalkCoded i (rounds pos) (not (is_empty is)) w in
        let later =
          walk-WalkCoded rounds (pos + 1) is
            (visit js req i (rounds pos) (not (is_empty is)) w).0 in
        either WalkCoded (leb 2 w.attempts) tt (
          match_some WalkCoded (visit js req i (rounds pos) (not (is_empty is)) w).1 (λ e. later)
            (λ r e. rw e at here))

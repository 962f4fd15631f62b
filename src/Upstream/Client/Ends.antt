-- ===== src/Upstream/Client/Ends.antt =====
-- How a streamed body ends, read off the exchange alone, and what `stream_chat` makes of it for a sink that
-- takes every event.
use kvmux.Prelude.{
  arith, if◌then◌else◌, ◌∙◌, ap, ◌≡◌, refl, sym, Bool, true, false, not, ◌&&◌, ◌||◌, List, [], ◌∷◌,
  ◌++◌, leb, if◌then◌else◌, Bytes, ℕ,
}
use mathlib.Core.Bool.{or_assoc, or-false, or-true}
use kvmux.Upstream.Sse.{SseEvent, SseParser, new, feed, flush, is_done}
use kvmux.Upstream.Sse.Chunks.{feed-append}
use kvmux.Upstream.Client.{
  after_read, ReadEnd, goes_on, expired, failed, Read, response, Loop, drain_pending, take_bytes,
  read_loop, loop0, finish, stream_body, stream_chat,
}

-- The bytes that came: those of every read up to the first that failed or expired.
unfoldable pub received : List Read → Bytes
received [] = []
received (r ∷ rs) =
    let rest = received rs in
    elim r.ended_by [ goes_on ↦ r.bytes ++ rest | expired ↦ r.bytes | failed ↦ r.bytes ]

-- Whether the first read that did not go on expired.
unfoldable pub runs_out : List Read → Bool
runs_out [] = false
runs_out (r ∷ rs) =
    let rest = runs_out rs in elim r.ended_by [ goes_on ↦ rest | expired ↦ true | failed ↦ false ]

unfoldable pub any_done : List SseEvent → Bool
any_done [] = false
any_done (ev ∷ evs) = is_done ev || any_done evs

-- Whether one of the events that a body holds is the sentinel, a last one without its blank line included.
unfoldable pub announces_end : Bytes → Bool
announces_end body = any_done (feed new body).1 || any_done (flush (feed new body).0).1

-- The upstream broke off: a read of the body expired, or it ended without the sentinel event.
abbrev pub breaks_off : List Read → Bool
breaks_off reads = not (announces_end (received reads)) || runs_out reads

else_taken : {A : Type 0} (b : Bool) (x y : A) → b ≡ false → (if b then x else y) ≡ y
else_taken true x y e = cc
else_taken false x y e = refl

any_done-append : (xs ys : List SseEvent) → any_done (xs ++ ys) ≡ (any_done xs || any_done ys)
unfolding any_done
any_done-append [] ys = refl
any_done-append (x ∷ xs) ys =
    ap (◌||◌ (is_done x)) (any_done-append xs ys)
    ∙ sym (or_assoc (is_done x) (any_done xs) (any_done ys))

module _ {κ} {S : Type 0} (sink : S → SseEvent → S × Bool) (P : S → Type κ)
    (takes : (s : S) (ev : SseEvent) → P s → P (sink s ev).0 × ((sink s ev).1 ≡ true)) where
  -- The loop after these bytes and the events of them, and whether a read expired.
  record After (l m : Loop sink) (p : SseParser) (evs : List SseEvent) (out : Bool) : Type κ where
    holds : P m.sink_state
    goes : m.sink_wants_stop ≡ false
    parser : m.sse ≡ p
    done : m.saw_done ≡ (l.saw_done || any_done evs)
    time : m.timed_out ≡ (l.timed_out || out)

  drain-After :
      (evs : List SseEvent) (l : Loop sink)
      → P l.sink_state
      → l.sink_wants_stop ≡ false
      → After l (drain_pending sink l evs) l.sse evs false
  unfolding drain_pending any_done
  drain-After [] l p going = record {
    holds = p;
    goes = going;
    parser = refl;
    done = sym (or-false l.saw_done);
    time = sym (or-false l.timed_out);
  }
  drain-After (ev ∷ evs) l p going =
      let (q, takes_it) = takes l.sink_state ev p in
      let l' : Loop sink = record l {
        sink_state = (sink l.sink_state ev).0;
        any_frame_forwarded = true;
        saw_done = l.saw_done || is_done ev;
      } in
      let h = drain-After evs l' q going in
      rw takes_it (record {
        holds = h.holds;
        goes = h.goes;
        parser = h.parser;
        done = h.done ∙ or_assoc l.saw_done (is_done ev) (any_done evs);
        time = h.time;
      })

  take-After :
      (bs : Bytes) (l : Loop sink)
      → P l.sink_state
      → l.sink_wants_stop ≡ false
      → After l (take_bytes sink l bs) (feed l.sse bs).0 (feed l.sse bs).1 false
  unfolding take_bytes feed
  take-After [] l p going = drain-After [] l p going
  take-After (c ∷ cs) l p going =
      let h =
        drain-After (feed l.sse (c ∷ cs)).1 (record l { sse = (feed l.sse (c ∷ cs)).0 }) p going in
      record { holds = h.holds; goes = h.goes; parser = h.parser; done = h.done; time = h.time }

  -- One read, and the rest of the loop after it.
  chain-After :
      (l m n : Loop sink) (a b : Bytes) (out : Bool)
      → After l m (feed l.sse a).0 (feed l.sse a).1 false
      → After m n (feed m.sse b).0 (feed m.sse b).1 out
      → After l n (feed l.sse (a ++ b)).0 (feed l.sse (a ++ b)).1 out
  chain-After l m n a b out h later =
      let now = (feed l.sse a).1 in
      let next = (feed (feed l.sse a).0 b).1 in
      let all : any_done (feed l.sse (a ++ b)).1 ≡ (any_done now || any_done next) =
        ap (λ (x : SseParser × List SseEvent). any_done x.1) (feed-append l.sse a b)
        ∙ any_done-append now next in
      record {
        holds = later.holds;
        goes = later.goes;
        parser =
            later.parser
            ∙ ap (λ q. (feed q b).0) h.parser
            ∙ sym (ap (λ (x : SseParser × List SseEvent). x.0) (feed-append l.sse a b));
        done =
            later.done
            ∙ ap (λ q. m.saw_done || any_done (feed q b).1) h.parser
            ∙ ap (λ x. x || any_done next) (h.done)
            ∙ or_assoc l.saw_done (any_done now) (any_done next)
            ∙ ap (λ x. l.saw_done || x) (sym all);
        time = later.time ∙ ap (λ x. x || out) (h.time ∙ or-false l.timed_out);
      }

  after_read-After :
      (e : ReadEnd) (l m n : Loop sink) (a b : Bytes) (out : Bool)
      → After l m (feed l.sse a).0 (feed l.sse a).1 false
      → After m n (feed m.sse b).0 (feed m.sse b).1 out
      → (let whole = elim e as (λ x. Bytes) [ goes_on ↦ a ++ b | expired ↦ a | failed ↦ a ] in
          After l
            (after_read sink e m n)
            (feed l.sse whole).0
            (feed l.sse whole).1
            (elim e as (λ x. Bool) [ goes_on ↦ out | expired ↦ true | failed ↦ false ]))
  unfolding after_read
  after_read-After goes_on l m n a b out h later = chain-After l m n a b out h later
  after_read-After expired l m n a b out h later = record {
    holds = h.holds;
    goes = h.goes;
    parser = h.parser;
    done = h.done;
    time = sym (or-true l.timed_out);
  }
  after_read-After failed l m n a b out h later = h

  read_loop-After :
      (rs : List Read) (l : Loop sink)
      → P l.sink_state
      → l.sink_wants_stop ≡ false
      → After l
          (read_loop sink l rs)
          (feed l.sse (received rs)).0
          (feed l.sse (received rs)).1
          (runs_out rs)
  unfolding read_loop received runs_out
  read_loop-After [] l p going = take-After [] l p going
  read_loop-After (r ∷ rs) l p going =
      let m = take_bytes sink l r.bytes in
      let h = take-After r.bytes l p going in
      let later = read_loop-After rs m h.holds h.goes in
      simp going (
        after_read-After r.ended_by l m (read_loop sink m rs) r.bytes (received rs) (runs_out rs) h
          later)

  finish-drains :
      (l : Loop sink)
      → l.sink_wants_stop ≡ false
      → finish sink l ≡ drain_pending sink (record l { sse = (flush l.sse).0 }) (flush l.sse).1
  unfolding finish
  finish-drains l going = else_taken l.sink_wants_stop _ _ going

  -- The whole body, with the flush after it.
  stream_body-After :
      (s : S) (rs : List Read)
      → P s
      → P (stream_body sink s rs).sink_state
        × ((stream_body sink s rs).sink_wants_stop ≡ false)
        × ((stream_body sink s rs).saw_done ≡ announces_end (received rs))
        × ((stream_body sink s rs).timed_out ≡ runs_out rs)
  unfolding stream_body announces_end
  stream_body-After s rs p =
      let h = read_loop-After rs (loop0 sink s) p refl in
      let l = read_loop sink (loop0 sink s) rs in
      let q = (feed new (received rs)).0 in
      let body = any_done (feed new (received rs)).1 in
      let g = drain-After (flush l.sse).1 (record l { sse = (flush l.sse).0 }) h.holds h.goes in
      rw (finish-drains l h.goes) (
        g.holds,
        g.goes,
        g.done
            ∙ ap (λ x. x || any_done (flush l.sse).1) h.done
            ∙ ap (λ x. body || any_done (flush x).1) h.parser,
        g.time ∙ or-false l.timed_out ∙ h.time,
      )

  -- What the result says of the end of a body, for a sink that takes every event.
  pub stream_chat-ends :
      (s : S) (status : ℕ) (reads : List Read)
      → leb 400 status ≡ false
      → P s
      → ((stream_chat sink s (response status reads)).1.timed_out ≡ runs_out reads)
        × (((stream_chat sink s (response status reads)).1.upstream_aborted
              || (stream_chat sink s (response status reads)).1.timed_out)
            ≡ breaks_off reads)
  unfolding stream_chat
  stream_chat-ends s status reads below p =
      let (held, goes, done, time) = stream_body-After s reads p in
      rw (below, goes, done, time) (refl, only (announces_end (received reads)) (runs_out reads))
    where
      only : (a b : Bool) → ((not a && not false && not b) || b) ≡ (not a || b)
      only a b = ground arith

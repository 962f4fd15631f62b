-- ===== src/Admission/Gate.antt =====
-- `GlobalGate` of src/admission/controller.hpp and controller.cpp. Everything runs on one io_context,
-- so `acquire` is two steps, up to its `co_await` and after it, and `release` is one. A `Waiter` is an
-- object on the heap that the coroutine and the queue share: here it is an identifier, and `granted`
-- is the heap's flag for each identifier.
mod Queue
pub mod Invariant
pub mod Order
pub mod Tests
use kvmux.Prelude.{
  ℕ, ◌+◌, ◌-◌, ◌<◌, ◌≡◌, Bool, true, false, not, ◌&&◌, ltb, leb, ◌==◌, if◌then◌else◌, List, [], ◌∷◌,
  ◌++◌, length, is_empty,
}

pub data AdmitStatus : Type 0 where
  admitted queue_full queue_timeout : AdmitStatus

pub record GlobalGate : Type 0 where
  pub max_concurrent : ℕ
  pub queue_depth : ℕ
  pub in_flight : ℕ
  pub waiters : List ℕ
  pub granted : ℕ → Bool
  pub next_waiter : ℕ

abbrev pub new : ℕ → ℕ → GlobalGate
new max_concurrent queue_depth = record {
  max_concurrent = max_concurrent;
  queue_depth = queue_depth;
  in_flight = 0;
  waiters = [];
  granted = λ _. false;
  next_waiter = 0;
}

-- A write to the flag of one waiter.
abbrev pub assign : (ℕ → Bool) → ℕ → Bool → ℕ → Bool
assign granted i b j = if j == i then b else granted j

-- What `acquire` has come to when it returns or first waits.
pub data Entry : Type 0 where
  returned : AdmitStatus → Entry
  waits : ℕ → Entry

-- `make_shared<Waiter>` and `push_back`.
abbrev pub join : GlobalGate → GlobalGate
join g = record g {
  waiters = g.waiters ++ g.next_waiter ∷ [];
  granted = assign g.granted g.next_waiter false;
  next_waiter = g.next_waiter + 1;
}

-- `acquire` up to `async_wait`.
unfoldable pub enter : GlobalGate → GlobalGate × Entry
enter g =
    if ltb g.in_flight g.max_concurrent && is_empty g.waiters
    then (record g { in_flight = g.in_flight + 1 }, returned admitted)
    else if leb g.queue_depth (length g.waiters)
    then (g, returned queue_full)
    else (join g, waits g.next_waiter)

-- The loop that erases the first entry that is this waiter.
unfoldable pub erase_first : ℕ → List ℕ → List ℕ
erase_first i [] = []
erase_first i (j ∷ js) = if j == i then js else j ∷ erase_first i js

-- `acquire` of waiter `i` after `async_wait`, which ends by the grant's cancel or by the timeout.
unfoldable pub resume : GlobalGate → ℕ → GlobalGate × AdmitStatus
resume g i =
    if g.granted i
    then (g, admitted)
    else (record g { waiters = erase_first i g.waiters }, queue_timeout)

-- The body of `release`, on the queue. The count falls only when no one takes the slot over; a caller
-- holds a slot, so it is not 0 there.
release_to : GlobalGate → List ℕ → GlobalGate
release_to g [] = record g { in_flight = g.in_flight - 1 }
release_to g (i ∷ is) = record g { waiters = is; granted = assign g.granted i true }

unfoldable pub release : GlobalGate → GlobalGate
unfolding release_to
release g = release_to g g.waiters

-- The gate with the coroutines that use it: those that wait in `acquire`, oldest first, and how many
-- hold a slot by a `Ticket`.
pub record World : Type 0 where
  pub gate : GlobalGate
  pub suspended : List ℕ
  pub holders : ℕ

abbrev pub start : ℕ → ℕ → World
start max_concurrent queue_depth = record {
  gate = new max_concurrent queue_depth;
  suspended = [];
  holders = 0;
}

abbrev pub after_entry : World → GlobalGate → Entry → World
after_entry w g (returned admitted) = record w { gate = g; holders = w.holders + 1 }
after_entry w g (returned _) = record w { gate = g }
after_entry w g (waits i) = record w { gate = g; suspended = w.suspended ++ i ∷ [] }

abbrev pub after_resume : World → ℕ → GlobalGate → AdmitStatus → World
after_resume w i g admitted = record {
  gate = g;
  suspended = erase_first i w.suspended;
  holders = w.holders + 1;
}
after_resume w i g _ = record w { gate = g; suspended = erase_first i w.suspended }

unfoldable pub arrive : World → World
arrive w = let (g, e) = enter w.gate in after_entry w g e

unfoldable pub wake : World → ℕ → World
wake w i = let (g, s) = resume w.gate i in after_resume w i g s

-- A ticket goes out of scope.
unfoldable pub leave : World → World
leave w = record w { gate = release w.gate; holders = w.holders - 1 }

unfoldable pub contains : ℕ → List ℕ → Bool
contains i [] = false
contains i (j ∷ js) = if j == i then true else contains i js

-- What may happen next: a request arrives, a coroutine that waits is resumed, at any time, or one that
-- holds a slot releases it.
pub data Step (w v : World) : Type 0 where
  arrives : v ≡ arrive w → Step w v
  wakes : (i : ℕ) → contains i w.suspended ≡ true → v ≡ wake w i → Step w v
  leaves : 0 < w.holders → v ≡ leave w → Step w v

pub data Reach (w : World) : World → Type 0 where
  here : Reach w w
  next : {u v : World} → Reach w u → Step u v → Reach w v

-- ===== src/Server/Gateway/Life.antt =====
-- The gateway from its start to its end, as src/server/gateway.hpp and gateway.cpp keep it: `draining_`, `in_flight_`,
-- the health monitors, and the chats that `handle` has let in and not yet left.
pub mod Drained
use kvmux.Prelude.{
  ℕ, ◌+◌, ◌-◌, ◌<◌, ◌≡◌, refl, inl, inr, Bool, true, false, not, ◌&&◌, none, some, List,
  if◌then◌else◌, Bool-cases, get_elem?, set, Bytes,
}
use kvmux.Health.Checker.Monitoring.{Loop, Event, step, stop_health_monitors}
use kvmux.Server.Gateway.{Backend}
use kvmux.Server.Gateway.Attempt.{Render, Reply}
use kvmux.Server.Gateway.Routes.{
  Method, Route, healthz, models, chat_completions, unknown, route_of, serve_route, handle,
}

pub record Life : Type 0 where
  pub draining : Bool
  pub in_flight : ℕ
  pub monitors : List Loop
  -- the calls of `handle_chat` that run
  pub chats : ℕ

abbrev pub start : List Loop → Life
start monitors = record { draining = false; in_flight = 0; monitors = monitors; chats = 0 }

unfoldable pub begin_drain : Life → Life
begin_drain l = record l { draining = true }

-- What the signal handler of src/main.cpp does before it makes the drainer.
unfoldable pub on_signal : Life → Life
unfolding begin_drain
on_signal l =
    let drains = begin_drain l in record drains { monitors = stop_health_monitors drains.monitors }

-- `fetch_add(1)` before `handle_chat`, for the route that has it.
abbrev pub let_in : Life → Route → Life
let_in l chat_completions = record l { in_flight = l.in_flight + 1; chats = l.chats + 1 }
let_in l _ = l

-- `handle` up to its `co_await` of `handle_chat`, or to its end.
unfoldable pub arrive : Method → Bytes → Life → Life
arrive method target l = if l.draining then l else let_in l (route_of method target)

-- `fetch_sub(1)`, after `handle_chat` has returned or thrown.
unfoldable pub depart : Life → Life
depart l = record l { in_flight = l.in_flight - 1; chats = l.chats - 1 }

-- The coroutine of monitor `i` goes on.
unfoldable pub probe : ℕ → Event → Life → Life
probe i e l = elim (get_elem? l.monitors i) [
  | none ↦ l
  | some m ↦ record l { monitors = set l.monitors i (step e m) }
]

-- What may happen next, in any order.
pub data Step (l m : Life) : Type 0 where
  arrives : (method : Method) (target : Bytes) → m ≡ arrive method target l → Step l m
  departs : 0 < l.chats → m ≡ depart l → Step l m
  probes : (i : ℕ) (e : Event) → m ≡ probe i e l → Step l m
  signals : m ≡ on_signal l → Step l m

pub data Reach (l : Life) : Life → Type 0 where
  here : Reach l l
  next : {m n : Life} → Reach l m → Step m n → Reach l n

abbrev pub is_chat : Route → Bool
is_chat chat_completions = true
is_chat _ = false

module _ {ℓ} {S : Type ℓ} (js : Render) (keep_alive : Bool) (bs : List Backend) (chat : S × Reply)
    (others : ℕ → ℕ) where
  serve_route-let_in :
      (l : Life) (r : Route)
      → (serve_route js keep_alive bs chat others l.in_flight r).in_flight
        ≡ (if is_chat r then others (let_in l r).in_flight - 1 else (let_in l r).in_flight)
  unfolding serve_route
  serve_route-let_in l healthz = refl
  serve_route-let_in l models = refl
  serve_route-let_in l chat_completions = refl
  serve_route-let_in l unknown = refl

  -- `handle` counts as `arrive` does when it begins, and as `depart` does when the chat it runs is over.
  pub handle-arrive :
      (method : Method) (target : Bytes) (l : Life)
      → (handle js keep_alive bs chat others l.in_flight l.draining method target).in_flight ≡ (
          if not l.draining && is_chat (route_of method target)
          then others (arrive method target l).in_flight - 1
          else (arrive method target l).in_flight)
  unfolding handle arrive
  handle-arrive method target l = elim (Bool-cases l.draining) [
    | inl e ↦ simp e refl
    | inr e ↦ simp e (serve_route-let_in l (route_of method target))
  ]

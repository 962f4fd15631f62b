-- ===== src/Main/Tests.antt =====
-- Command lines, and a drain with one chat that ends at the third poll.
use mathlib.Core.Path.{subst}
use kvmux.Prelude.{
  none, ℕ, zero, suc, ◌+◌, ◌*◌, ◌≤◌, ◌<◌, ◌≡◌, refl, ◌≢◌, true, false, Option, some, List, [], ◌∷◌,
  arith, ltb, if◌then◌else◌, Bytes, codes, equal,
}
use kvmux.Metrics.Histogram.Tests.{whole_numbers}
use kvmux.Config.Load.{TomlText, parsed, load_file, load_string}
use kvmux.Config.Valid.{IsValidConfig}
use kvmux.Config.Tests.{trees, small, loaded, small_loads}
use kvmux.Main.{serve, parse_args, starts, main, drain, poll, drain_window}
use kvmux.Main.Graceful.{drain-IsOver}
use kvmux.Health.Checker.Monitoring.{Loop, stop_health_monitors}
use kvmux.Server.Gateway.Routes.{post, route_of}
use kvmux.Server.Gateway.Life.{
  Life, start, begin_drain, on_signal, arrive, depart, arrives, departs, Reach, here, next,
}
use kvmux.Server.Gateway.Life.Drained.{IsOver}
use kvmux.Main.Process.{process, listening, run_gateway, endpoint}
use kvmux.Server.Gateway.Construct.Tests.{made, makes}
use kvmux.Main.Start.{main-IsValidConfig}

-- The last argument has no value, so the path is the one before.
two_paths : parse_args [] (codes "-c" ∷ codes "a" ∷ codes "-c" ∷ []) ≡ serve (codes "a")
unfolding parse_args equal
two_paths = refl

abbrev read_small : Bytes → Bytes → TomlText whole_numbers trees
read_small text name = parsed small

abbrev only_file : Bytes → Option Bytes
only_file path = some []

abbrev arguments : List Bytes
arguments = codes "--config" ∷ codes "kvmux.toml" ∷ []

starts_small :
    main whole_numbers (load_file whole_numbers trees read_small only_file) arguments
    ≡ starts loaded
unfolding main parse_args equal load_file load_string
starts_small = rw small_loads refl

main-IsValidConfig_example : IsValidConfig whole_numbers loaded
main-IsValidConfig_example =
    main-IsValidConfig whole_numbers trees read_small only_file arguments loaded refl refl
      starts_small

abbrev clock : ℕ → ℕ
clock k = 7 + 100 * k

-- One chat, which ends before the third poll.
abbrev one_chat : ℕ → ℕ
one_chat k = if ltb k 2 then 1 else 0

drain_two : drain 5 clock one_chat 301 ≡ some 2
unfolding drain poll
drain_two = refl

-- A shutdown with one chat, which leaves between the second poll and the third.
abbrev no_monitors : List Loop
no_monitors = []

abbrev one_running : Life
one_running = record { draining = false; in_flight = 1; monitors = []; chats = 1 }

abbrev draining_life : ℕ → Life
draining_life n = record { draining = true; in_flight = n; monitors = []; chats = n }

abbrev lives : ℕ → Life
lives zero = draining_life 1
lives (suc zero) = draining_life 1
lives (suc (suc k)) = draining_life 0

one_chat_arrives : Reach (start no_monitors) one_running
unfolding arrive route_of equal
one_chat_arrives = next here (arrives post (codes "/v1/chat/completions") refl)

lives_from : (k : ℕ) → Reach (lives k) (lives (suc k))
unfolding depart
lives_from zero = here
lives_from (suc zero) = next here (departs (omega arith) refl)
lives_from (suc (suc k)) = here

lives_go_on : (k : ℕ) → Reach (lives k) (lives (k + 1))
lives_go_on k =
    let e : suc k ≡ k + 1 = omega arith in subst (λ n. Reach (lives k) (lives n)) e (lives_from k)

signal_comes : Reach (on_signal one_running) (lives 0)
unfolding on_signal begin_drain stop_health_monitors
signal_comes = here

drain-IsOver_example :
    (stop : ℕ) × (drain 5 clock (λ k. (lives k).in_flight) 301 ≡ some stop)
    × (stop ≤ 300)
    × ((k : ℕ) → IsOver one_running (lives k))
    × ((k : ℕ) → k < stop → (lives k).chats ≢ 0)
    × (clock stop < 5 + drain_window → (later : Life) → Reach (lives stop) later → later.chats ≡ 0)
drain-IsOver_example =
    drain-IsOver 5 clock no_monitors one_running lives (omega arith) (λ k. omega arith)
      one_chat_arrives signal_comes lives_go_on

-- The address is its text, if there is one.
abbrev any_text : Bytes → Option Bytes
any_text [] = none
any_text (b ∷ bs) = some (b ∷ bs)

-- The small configuration has the default address and the default ports.
small_listens :
    process any_text whole_numbers (load_file whole_numbers trees read_small only_file) arguments
    ≡ listening made
        (record { address = loaded.server.listen; port = loaded.server.port })
        (record { address = loaded.server.listen; port = loaded.metrics_port })
unfolding process run_gateway endpoint
small_listens = rw (starts_small, run_gateway, makes) refl

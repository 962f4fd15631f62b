-- ===== src/Main.antt =====
-- src/main.cpp: the command line, what becomes of the configuration, and the poll that ends a drain. The
-- setup of sockets, signals and threads is not modelled.
pub mod Drain
pub mod Graceful
pub mod Start
pub mod Process
pub mod Tests
use kvmux.Prelude.{
  ℕ, zero, suc, ◌+◌, Bool, ◌||◌, Option, none, some, List, [], ◌∷◌, leb, ◌==◌, if◌then◌else◌, Bytes,
  codes, equal, is_empty,
}
use kvmux.Prelude.Double.{Double}
use kvmux.Prelude.Result.{Result, ok, err}
use kvmux.Config.{Config, ConfigError}

-- What the loop over the arguments comes to.
pub data CommandLine : Type 0 where
  version : CommandLine
  help : CommandLine
  -- the path, empty if there is none
  serve : Bytes → CommandLine

abbrev pub is_config : Bytes → Bool
is_config arg = equal arg (codes "--config") || equal arg (codes "-c")

abbrev pub is_version : Bytes → Bool
is_version arg = equal arg (codes "--version")

abbrev pub is_help : Bytes → Bool
is_help arg = equal arg (codes "--help") || equal arg (codes "-h")

-- An argument that is not the option of a path, with its value.
abbrev pub plain_arg : Bytes → CommandLine → CommandLine
plain_arg arg rest = if is_version arg then version else if is_help arg then help else rest

-- The loop, from an argument on. `--config` as the last argument has no value and is passed over.
unfoldable pub parse_args : Bytes → List Bytes → CommandLine
parse_args config_path [] = serve config_path
parse_args config_path (arg ∷ []) = plain_arg arg (serve config_path)
parse_args config_path (arg ∷ value ∷ rest) =
    let with_value = parse_args value rest in
    let without = parse_args config_path (value ∷ rest) in
    if is_config arg then with_value else plain_arg arg without

module _ (fp : Double) where
  -- An exit status, or the gateway starts.
  pub data Outcome : Type 0 where
    exits : ℕ → Outcome
    starts : Config fp → Outcome

  abbrev pub from_file : Result ConfigError (Config fp) → Outcome
  from_file (ok cfg) = starts cfg
  from_file (err e) = exits 2

  abbrev pub from_line : (Bytes → Result ConfigError (Config fp)) → CommandLine → Outcome
  from_line load version = exits 0
  from_line load help = exits 0
  from_line load (serve path) = if is_empty path then exits 2 else from_file (load path)

  -- Up to the point where the gateway is made, with `load_file` as an argument.
  unfoldable pub main : (Bytes → Result ConfigError (Config fp)) → List Bytes → Outcome
  unfolding parse_args
  main load args = from_line load (parse_args [] args)

-- The drainer: what it sees at its `k`-th poll is the time `now k` and the chats in flight. `none` when the
-- fuel does not reach, and else the number of the poll that stops the io_context.
unfoldable pub poll : (ℕ → ℕ) → (ℕ → ℕ) → ℕ → ℕ → ℕ → Option ℕ
poll now in_flight deadline k zero = none
poll now in_flight deadline k (suc fuel) =
    let again = poll now in_flight deadline (k + 1) fuel in
    if in_flight k == 0 || leb deadline (now k) then some k else again

-- The deadline is 30 seconds after the drainer was made, in milliseconds.
abbrev pub drain_window : ℕ
drain_window = 30000

abbrev pub poll_interval : ℕ
poll_interval = 100

-- The drainer is made at the time `made`, and polls at once.
unfoldable pub drain : ℕ → (ℕ → ℕ) → (ℕ → ℕ) → ℕ → Option ℕ
unfolding poll
drain made now in_flight fuel = poll now in_flight (made + drain_window) 0 fuel

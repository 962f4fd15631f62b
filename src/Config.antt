-- ===== src/Config.antt =====
-- src/config.hpp and the getters of src/config.cpp. toml++ is an interface, and so is the type double.
-- Errors carry what their messages say, without the wording.
pub mod Sections
pub mod Load
pub mod Getters
pub mod Valid
pub mod Fields
pub mod Backends
pub mod Ranges
pub mod Unordered
pub mod Tests
use kvmux.Prelude.{
  Bool, true, false, ◌||◌, Option, none, some, List, [], ◌∷◌, ltb, if◌then◌else◌, Bytes, codes,
  equal, ℕ,
}
use kvmux.Prelude.Int.{ℤ, pos, negsuc}
use kvmux.Prelude.Double.{Double}
use kvmux.Prelude.Result.{Result, ok, err, ◌>>=◌, ◌>>◌, throw_if}
use kvmux.Health.Checker.{BackendType, vllm, llamacpp, ollama}

-- What the loader calls of toml++: the entries of a table in the order of its iterator, lookup, and the
-- checked views of a node, each `none` where the node has another type.
pub record Toml (fp : Double) : Type 1 where
  pub Node : Type 0
  pub Table : Type 0
  pub entries : Table → List (Bytes × Node)
  pub get : Table → Bytes → Option Node
  pub line : Node → ℕ
  pub column : Node → ℕ
  pub as_string : Node → Option Bytes
  pub as_integer : Node → Option ℤ
  pub as_float : Node → Option (Double.Value fp)
  pub as_array : Node → Option (List Node)
  pub as_table : Node → Option Table
  pub as_tables : Node → Option (List Table)

pub data RoutingPolicy : Type 0 where
  prefix_affinity round_robin : RoutingPolicy

pub record BackendConfig : Type 0 where
  pub name : Bytes
  pub type : BackendType
  pub base_url : Bytes
  pub models : List Bytes
  pub max_in_flight : ℕ
  pub health_interval_ms : ℕ
  pub failure_threshold : ℕ
  pub open_ms : ℕ

pub record ServerConfig : Type 0 where
  pub listen : Bytes
  pub port : ℕ
  pub max_concurrent_streams : ℕ
  pub queue_depth : ℕ
  pub queue_timeout_ms : ℕ
  pub request_timeout_ms : ℕ

pub record RoutingConfig (fp : Double) : Type 0 where
  pub policy : RoutingPolicy
  pub prefix_bytes : ℕ
  pub load_threshold : Double.Value fp

pub record Config (fp : Double) : Type 0 where
  pub server : ServerConfig
  pub metrics_port : ℕ
  pub routing : RoutingConfig fp
  pub backends : List BackendConfig

-- A line and a column.
abbrev pub Source : Type 0
Source = ℕ × ℕ

pub data ConfigError : Type 0 where
  -- key and section
  unknown_key : Bytes → Bytes → Source → ConfigError
  missing_key : Bytes → Bytes → ConfigError
  -- key, section, and the type that it must have
  wrong_type : Bytes → Bytes → Bytes → Source → ConfigError
  -- key, section and bounds, with the value where it is an integer
  out_of_range : Bytes → Bytes → Option ℤ → Source → ConfigError
  bad_backend_type bad_policy : Bytes → Source → ConfigError
  not_a_table : Bytes → Source → ConfigError
  no_backends : ConfigError
  not_tables : Source → ConfigError
  -- the backend's name
  duplicate_name missing_type missing_models : Bytes → ConfigError
  bad_model : Bytes → Source → ConfigError
  -- source name, description and place
  parse_error : Bytes → Bytes → Source → ConfigError
  cannot_open : Bytes → ConfigError

unfoldable pub to_string : BackendType → Bytes
to_string vllm = codes "vllm"
to_string llamacpp = codes "llamacpp"
to_string ollama = codes "ollama"

unfoldable pub policy_string : RoutingPolicy → Bytes
policy_string prefix_affinity = codes "prefix_affinity"
policy_string round_robin = codes "round_robin"

pub contains : Bytes → List Bytes → Bool
contains s [] = false
contains s (t ∷ ts) = if equal s t then true else contains s ts

module _ (fp : Double) (toml : Toml fp) where
  abbrev pub Run {ℓ} : Type ℓ → Type ℓ
  Run A = Result ConfigError A

  abbrev pub node_loc : Toml.Node toml → Source
  node_loc n = (toml.line n, toml.column n)

  unfoldable pub reject_unknown_keys :
      List (Bytes × Toml.Node toml) → List Bytes → Bytes → Run (Unit {0})
  unfolding contains
  reject_unknown_keys [] allowed section = ok tt
  reject_unknown_keys ((key, node) ∷ rest) allowed section =
      let later = reject_unknown_keys rest allowed section in
      if contains key allowed then later else err (unknown_key key section (node_loc node))

  -- A node that is there, as a string.
  abbrev pub string_of : Toml.Node toml → Bytes → Bytes → Run Bytes
  string_of node key section = elim (toml.as_string node) [
    | none ↦ err (wrong_type key section (codes "a string") (node_loc node))
    | some s ↦ ok s
  ]

  unfoldable pub req_string : Toml.Table toml → Bytes → Bytes → Run Bytes
  req_string tbl key section = elim (toml.get tbl key) [
    | none ↦ err (missing_key key section)
    | some node ↦ string_of node key section
  ]

  unfoldable pub opt_string : Toml.Table toml → Bytes → Bytes → Bytes → Run Bytes
  opt_string tbl key section dflt = elim (toml.get tbl key) [
    | none ↦ ok dflt
    | some node ↦ string_of node key section
  ]

  -- The bounds that the loader uses are not negative, so a negative value is below them.
  unfoldable pub int_in : ℤ → ℕ → ℕ → ConfigError → Run ℕ
  int_in (pos n) min_val max_val e = if ltb n min_val || ltb max_val n then err e else ok n
  int_in (negsuc n) min_val max_val e = err e

  unfoldable pub opt_int : Toml.Table toml → Bytes → Bytes → ℕ → ℕ → ℕ → Run ℕ
  unfolding int_in
  opt_int tbl key section dflt min_val max_val = elim (toml.get tbl key) [
    | none ↦ ok dflt
    | some node ↦ elim (toml.as_integer node) [
      | none ↦ err (wrong_type key section (codes "an integer") (node_loc node))
      | some v ↦ int_in v min_val max_val (out_of_range key section (some v) (node_loc node))
    ]
  ]

  abbrev pub number_of : Toml.Node toml → Option (Double.Value fp)
  number_of node = elim (toml.as_float node) [
    | some v ↦ some v
    | none ↦ elim (toml.as_integer node) [ some n ↦ some (fp.of_int64 n) | none ↦ none ]
  ]

  unfoldable pub opt_double :
      Toml.Table toml
      → Bytes
      → Bytes
      → Double.Value fp
      → Double.Value fp
      → Double.Value fp
      → Run (Double.Value fp)
  opt_double tbl key section dflt min_val max_val = elim (toml.get tbl key) [
    | none ↦ ok dflt
    | some node ↦ elim (number_of node) [
      | none ↦ err (wrong_type key section (codes "a number") (node_loc node))
      | some v ↦
          if fp.lt v min_val || fp.lt max_val v
          then err (out_of_range key section none (node_loc node))
          else ok v
    ]
  ]

  unfoldable pub parse_backend_type : Bytes → Toml.Node toml → Run BackendType
  parse_backend_type s n =
      if equal s (codes "vllm")
      then ok vllm
      else if equal s (codes "llamacpp")
      then ok llamacpp
      else if equal s (codes "ollama")
      then ok ollama
      else err (bad_backend_type s (node_loc n))

  unfoldable pub parse_policy : Bytes → Toml.Node toml → Run RoutingPolicy
  parse_policy s n =
      if equal s (codes "prefix_affinity")
      then ok prefix_affinity
      else if equal s (codes "round_robin")
      then ok round_robin
      else err (bad_policy s (node_loc n))

-- ===== src/Config/Sections.antt =====
-- `parse_server`, `parse_metrics`, `parse_routing` and `parse_backends` of src/config.cpp.
use kvmux.Prelude.{ℕ, none, some, List, [], ◌∷◌, Bytes, codes}
use kvmux.Prelude.Double.{Double}
use kvmux.Prelude.Result.{Result, ok, err, ◌>>=◌, ◌>>◌, throw_if}
use kvmux.Config.{
  BackendType, Toml, RoutingPolicy, prefix_affinity, BackendConfig, ServerConfig, RoutingConfig,
  ConfigError, wrong_type, not_a_table, no_backends, not_tables, duplicate_name, missing_type,
  missing_models, bad_model, contains, node_loc, reject_unknown_keys, req_string, opt_string,
  opt_int, opt_double, parse_backend_type, parse_policy,
}

abbrev pub server0 : ServerConfig
server0 = record {
  listen = codes "0.0.0.0";
  port = 8080;
  max_concurrent_streams = 256;
  queue_depth = 64;
  queue_timeout_ms = 5000;
  request_timeout_ms = 300000;
}

abbrev pub server_keys : List Bytes
server_keys =
    codes "listen"
    ∷ codes "port"
    ∷ codes "max_concurrent_streams"
    ∷ codes "queue_depth"
    ∷ codes "queue_timeout_ms"
    ∷ codes "request_timeout_ms"
    ∷ []

abbrev pub routing_keys : List Bytes
routing_keys = codes "policy" ∷ codes "prefix_bytes" ∷ codes "load_threshold" ∷ []

abbrev pub backend_keys : List Bytes
backend_keys =
    codes "name"
    ∷ codes "type"
    ∷ codes "base_url"
    ∷ codes "models"
    ∷ codes "max_in_flight"
    ∷ codes "health_interval_ms"
    ∷ codes "failure_threshold"
    ∷ codes "open_ms"
    ∷ []

-- The section's name as the messages have it.
abbrev pub backends_section : Bytes
backends_section = codes "[backends]]"

module _ (fp : Double) (toml : Toml fp) where
  abbrev pub routing0 : RoutingConfig fp
  routing0 = record { policy = prefix_affinity; prefix_bytes = 1024; load_threshold = fp.tenths 8 }

  -- A section that may be left out, and then keeps its defaults.
  abbrev pub section_of {ℓ} :
      {A : Type ℓ}
      → Toml.Table toml
      → Bytes
      → A
      → (Toml.Table toml → Result ConfigError A)
      → Result ConfigError A
  section_of root name dflt fields = elim (toml.get root name) [
    | none ↦ ok dflt
    | some node ↦ elim (toml.as_table node) [
      | none ↦ err (not_a_table name (node_loc fp toml node))
      | some tbl ↦ fields tbl
    ]
  ]

  unfoldable pub server_fields : Toml.Table toml → Result ConfigError ServerConfig
  server_fields tbl = do
    let s = codes "server"
    reject_unknown_keys fp toml (toml.entries tbl) server_keys s
    listen ← opt_string fp toml tbl (codes "listen") s server0.listen
    port ← opt_int fp toml tbl (codes "port") s server0.port 1 65535
    streams ←
        opt_int fp toml tbl (codes "max_concurrent_streams") s server0.max_concurrent_streams 1
          1000000
    depth ← opt_int fp toml tbl (codes "queue_depth") s server0.queue_depth 0 1000000
    wait ← opt_int fp toml tbl (codes "queue_timeout_ms") s server0.queue_timeout_ms 0 3600000
    budget ←
        opt_int fp toml tbl (codes "request_timeout_ms") s server0.request_timeout_ms 1 86400000
    ok (record {
      listen = listen;
      port = port;
      max_concurrent_streams = streams;
      queue_depth = depth;
      queue_timeout_ms = wait;
      request_timeout_ms = budget;
    })

  unfoldable pub parse_server : Toml.Table toml → Result ConfigError ServerConfig
  parse_server root = section_of root (codes "server") server0 server_fields

  unfoldable pub metrics_fields : Toml.Table toml → Result ConfigError ℕ
  metrics_fields tbl = do
    reject_unknown_keys fp toml (toml.entries tbl) (codes "port" ∷ []) (codes "metrics")
    opt_int fp toml tbl (codes "port") (codes "metrics") 9090 1 65535

  unfoldable pub parse_metrics : Toml.Table toml → Result ConfigError ℕ
  parse_metrics root = section_of root (codes "metrics") 9090 metrics_fields

  unfoldable pub policy_field : Toml.Table toml → Result ConfigError RoutingPolicy
  policy_field tbl = elim (toml.get tbl (codes "policy")) [
    | none ↦ ok prefix_affinity
    | some p ↦ elim (toml.as_string p) [
      | none ↦
          err
            (wrong_type (codes "policy") (codes "routing") (codes "a string") (node_loc fp toml p))
      | some s ↦ parse_policy fp toml s p
    ]
  ]

  unfoldable pub routing_fields : Toml.Table toml → Result ConfigError (RoutingConfig fp)
  routing_fields tbl = do
    let r = codes "routing"
    reject_unknown_keys fp toml (toml.entries tbl) routing_keys r
    policy ← policy_field tbl
    prefix ← opt_int fp toml tbl (codes "prefix_bytes") r 1024 1 1048576
    threshold ←
        opt_double fp toml tbl (codes "load_threshold") r (fp.tenths 8) (fp.tenths 0) (fp.tenths 10)
    ok (record { policy = policy; prefix_bytes = prefix; load_threshold = threshold })

  unfoldable pub parse_routing : Toml.Table toml → Result ConfigError (RoutingConfig fp)
  parse_routing root = section_of root (codes "routing") routing0 routing_fields

  -- The loop over the entries of `models`.
  unfoldable pub models_of : Bytes → List (Toml.Node toml) → Result ConfigError (List Bytes)
  models_of name [] = ok []
  models_of name (m ∷ ms) = elim (toml.as_string m) [
    | none ↦ err (bad_model name (node_loc fp toml m))
    | some s ↦ models_of name ms >>= λ rest. ok (s ∷ rest)
  ]

  unfoldable pub type_field : Toml.Table toml → Bytes → Result ConfigError BackendType
  type_field tbl name = elim (toml.get tbl (codes "type")) [
    | none ↦ err (missing_type name)
    | some n ↦ elim (toml.as_string n) [
      | none ↦ err (missing_type name)
      | some s ↦ parse_backend_type fp toml s n
    ]
  ]

  abbrev pub some_models : Bytes → List (Toml.Node toml) → Result ConfigError (List Bytes)
  some_models name [] = err (missing_models name)
  some_models name (m ∷ ms) = models_of name (m ∷ ms)

  unfoldable pub models_field : Toml.Table toml → Bytes → Result ConfigError (List Bytes)
  unfolding models_of
  models_field tbl name = elim (toml.get tbl (codes "models")) [
    | none ↦ err (missing_models name)
    | some n ↦ elim (toml.as_array n) [
      | none ↦ err (missing_models name)
      | some ms ↦ some_models name ms
    ]
  ]

  -- One table of `[[backends]]`. The names seen before it are an argument.
  unfoldable pub parse_backend : List Bytes → Toml.Table toml → Result ConfigError BackendConfig
  unfolding contains
  parse_backend seen tbl = do
    let s = backends_section
    reject_unknown_keys fp toml (toml.entries tbl) backend_keys s
    name ← req_string fp toml tbl (codes "name") s
    throw_if (contains name seen) (duplicate_name name)
    type ← type_field tbl name
    url ← req_string fp toml tbl (codes "base_url") s
    models ← models_field tbl name
    most ← opt_int fp toml tbl (codes "max_in_flight") s 8 1 1000000
    interval ← opt_int fp toml tbl (codes "health_interval_ms") s 2000 100 3600000
    threshold ← opt_int fp toml tbl (codes "failure_threshold") s 5 1 1000000
    window ← opt_int fp toml tbl (codes "open_ms") s 10000 1 3600000
    ok (record {
      name = name;
      type = type;
      base_url = url;
      models = models;
      max_in_flight = most;
      health_interval_ms = interval;
      failure_threshold = threshold;
      open_ms = window;
    })

  unfoldable pub backends_from :
      List Bytes → List (Toml.Table toml) → Result ConfigError (List BackendConfig)
  unfolding parse_backend
  backends_from seen [] = ok []
  backends_from seen (t ∷ ts) = do
    b ← parse_backend seen t
    bs ← backends_from (b.name ∷ seen) ts
    ok (b ∷ bs)

  abbrev pub some_tables : List (Toml.Table toml) → Result ConfigError (List BackendConfig)
  some_tables [] = err no_backends
  some_tables (t ∷ ts) = backends_from [] (t ∷ ts)

  unfoldable pub parse_backends : Toml.Table toml → Result ConfigError (List BackendConfig)
  unfolding backends_from
  parse_backends root = elim (toml.get root (codes "backends")) [
    | none ↦ err no_backends
    | some node ↦ elim (toml.as_tables node) [
      | none ↦ err (not_tables (node_loc fp toml node))
      | some ts ↦ some_tables ts
    ]
  ]

-- ===== src/Config/Load.antt =====
-- `validate`, `load_string` and `load_file` of src/config.cpp. What toml++ makes of a text, and the text
-- that a path gives, are arguments.
use kvmux.Prelude.{Option, none, some, List, [], ◌∷◌, Bytes, codes}
use kvmux.Prelude.Double.{Double}
use kvmux.Prelude.Result.{Result, ok, err, ◌>>=◌, ◌>>◌}
use kvmux.Config.{Toml, Config, Source, ConfigError, parse_error, cannot_open, reject_unknown_keys}
use kvmux.Config.Sections.{parse_server, parse_metrics, parse_routing, parse_backends}

abbrev pub root_keys : List Bytes
root_keys = codes "server" ∷ codes "metrics" ∷ codes "routing" ∷ codes "backends" ∷ []

module _ (fp : Double) (toml : Toml fp) where
  unfoldable pub validate : Toml.Table toml → Result ConfigError (Config fp)
  validate root = do
    reject_unknown_keys fp toml (toml.entries root) root_keys (codes "<root>")
    server ← parse_server fp toml root
    port ← parse_metrics fp toml root
    routing ← parse_routing fp toml root
    backends ← parse_backends fp toml root
    ok (record { server = server; metrics_port = port; routing = routing; backends = backends })

  -- What `toml::parse` gives: a table, or an exception with its description and place.
  pub data TomlText : Type 0 where
    parsed : Toml.Table toml → TomlText
    malformed : Bytes → Source → TomlText

  unfoldable pub load_string :
      (Bytes → Bytes → TomlText) → Bytes → Bytes → Result ConfigError (Config fp)
  load_string parse text source_name = elim (parse text source_name) [
    | parsed root ↦ validate root
    | malformed description at ↦ err (parse_error source_name description at)
  ]

  unfoldable pub load_file :
      (Bytes → Bytes → TomlText) → (Bytes → Option Bytes) → Bytes → Result ConfigError (Config fp)
  load_file parse contents path = elim (contents path) [
    | none ↦ err (cannot_open path)
    | some text ↦ load_string parse text path
  ]

-- ===== src/Main/Process.antt =====
-- src/main.cpp as a whole: the exit status, or where the process listens.
use kvmux.Prelude.{
  false, ◌∷◌, ℕ, ◌%◌, ◌^◌, ◌≡◌, refl, ◌⊎◌, inl, inr, Option, none, some, List, [], arith,
  Option-cases, Bytes,
}
use kvmux.Prelude.Double.{Double}
use kvmux.Prelude.Result.{Ensures-ok, Result, ok, err}
use kvmux.Config.{Toml, Config, ConfigError}
use kvmux.Config.Load.{TomlText, load_file}
use kvmux.Config.Valid.{IsValidConfig}
use kvmux.Server.Gateway.Construct.{Gateway, new}
use kvmux.Main.Start.{load_file-Ensures}
use kvmux.Main.{
  CommandLine, version, help, serve, parse_args, Outcome, exits, starts, from_file, from_line, main,
}

-- `tcp::endpoint`
pub record Endpoint (Address : Type 0) : Type 0 where
  pub address : Address
  pub port : ℕ

-- The process ends with a status, or `ioc.run()` is reached with the two listeners spawned.
pub data Process (Address : Type 0) : Type 0 where
  exited : ℕ → Process Address
  listening : Gateway → Endpoint Address → Endpoint Address → Process Address

-- `make_address`, which throws on a text that is no address.
module _ {Address : Type 0} (make_address : Bytes → Option Address) (fp : Double) where
  -- The cast to `unsigned short`.
  unfoldable pub endpoint : Address → ℕ → Endpoint Address
  endpoint address port = record { address = address; port = port % 2 ^ 16 }

  -- The body of the `try` block up to `ioc.run()`, and its handler.
  unfoldable pub run_gateway : Config fp → Process Address
  unfolding endpoint
  run_gateway cfg = elim (new fp cfg) [
    | err url ↦ exited 1
    | ok gateway ↦ elim (make_address cfg.server.listen) [
      | none ↦ exited 1
      | some address ↦
          listening gateway (endpoint address cfg.server.port) (endpoint address cfg.metrics_port)
    ]
  ]

  abbrev pub from_outcome : Outcome fp → Process Address
  from_outcome (exits status) = exited status
  from_outcome (starts cfg) = run_gateway cfg

  unfoldable pub process : (Bytes → Result ConfigError (Config fp)) → List Bytes → Process Address
  unfolding run_gateway
  process load args = from_outcome (main fp load args)

  -- Why a process with these arguments does what it does.
  pub data Explains (load : Bytes → Result ConfigError (Config fp)) (args : List Bytes)
      : Process Address → Type 0 where
    asks :
        (parse_args [] args ≡ version) ⊎ (parse_args [] args ≡ help) → Explains load args (exited 0)
    no_path : parse_args [] args ≡ serve [] → Explains load args (exited 2)
    bad_config :
        (path : Bytes) (e : ConfigError)
        → parse_args [] args ≡ serve path
        → load path ≡ err e
        → Explains load args (exited 2)
    bad_url :
        (path url : Bytes) (c : Config fp)
        → parse_args [] args ≡ serve path
        → load path ≡ ok c
        → new fp c ≡ err url
        → Explains load args (exited 1)
    bad_address :
        (path : Bytes) (c : Config fp)
        → parse_args [] args ≡ serve path
        → load path ≡ ok c
        → make_address c.server.listen ≡ none
        → Explains load args (exited 1)
    -- on the address and the ports of the configuration
    listens :
        (path : Bytes) (c : Config fp) (g : Gateway) (address : Address)
        → parse_args [] args ≡ serve path
        → load path ≡ ok c
        → new fp c ≡ ok g
        → make_address c.server.listen ≡ some address
        → Explains load args (
            listening g
              (record { address = address; port = c.server.port })
              (record { address = address; port = c.metrics_port }))

  run_gateway-Explains :
      (load : Bytes → Result ConfigError (Config fp)) (args : List Bytes) (path : Bytes)
      (c : Config fp)
      → parse_args [] args ≡ serve path
      → load path ≡ ok c
      → IsValidConfig fp c
      → Explains load args (run_gateway c)
  unfolding run_gateway endpoint
  run_gateway-Explains load args path c line loaded valid = made (new fp c) refl
    where
      made : (r : Result Bytes Gateway) → new fp c ≡ r → Explains load args (run_gateway c)
      made (err url) e = rw (run_gateway, e) (bad_url path url c line loaded e)
      made (ok g) e = elim (Option-cases (make_address c.server.listen)) [
        | inl bad ↦ rw (run_gateway, e, bad) (bad_address path c line loaded bad)
        | inr (a, good) ↦
            let port : c.server.port % 2 ^ 16 ≡ c.server.port =
              omega (arith, valid.server.port.1) in
            let metrics : c.metrics_port % 2 ^ 16 ≡ c.metrics_port =
              omega (arith, valid.metrics.1) in
            rw (run_gateway, e, good, endpoint, port, metrics)
              (listens path c g a line loaded e good)
      ]

  module _ (load : Bytes → Result ConfigError (Config fp)) (args : List Bytes)
      (loads_valid : (path : Bytes) (c : Config fp) → load path ≡ ok c → IsValidConfig fp c) where
    from_line-Explains :
        (line : CommandLine)
        → parse_args [] args ≡ line
        → Explains load args (from_outcome (from_line fp load line))
    from_line-Explains version e = asks (inl e)
    from_line-Explains help e = asks (inr e)
    from_line-Explains (serve []) e = no_path e
    from_line-Explains (serve (b ∷ bs)) e = loaded (load (b ∷ bs)) refl
      where
        loaded :
            (r : Result ConfigError (Config fp))
            → load (b ∷ bs) ≡ r
            → Explains load args (from_outcome (from_file fp r))
        loaded (err x) h = bad_config (b ∷ bs) x e h
        loaded (ok c) h = run_gateway-Explains load args (b ∷ bs) c e h (loads_valid (b ∷ bs) c h)

  -- What a process does, from what `parse_args` makes of its command line: it ends with 0 on `version` and
  -- `help`, with 2 if there is no path or the file is refused, and with 1 if a base URL or the listen address
  -- cannot be read; otherwise its listeners are spawned for that address and exactly the two configured ports.
  -- The default threshold is supposed to lie between 0 and 1.
  process-Explains :
      (toml : Toml fp) (parse : Bytes → Bytes → TomlText fp toml) (contents : Bytes → Option Bytes)
      (args : List Bytes)
      → fp.lt (fp.tenths 8) (fp.tenths 0) ≡ false
      → fp.lt (fp.tenths 10) (fp.tenths 8) ≡ false
      → Explains
          (load_file fp toml parse contents)
          args
          (process (load_file fp toml parse contents) args)
  unfolding process main
  process-Explains toml parse contents args lo hi =
      from_line-Explains (load_file fp toml parse contents) args
        (λ path c loaded. Ensures-ok (load_file-Ensures fp toml lo hi parse contents path) loaded)
        (parse_args [] args) refl

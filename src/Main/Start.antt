-- ===== src/Main/Start.antt =====
-- With which configurations the gateway starts.
use kvmux.Prelude.{◌≡◌, false, Option, List, [], ◌∷◌, either_some, Bytes}
use kvmux.Prelude.Double.{Double}
use kvmux.Prelude.Result.{Result, ok, err, Ensures, thrown, Ensures-ok, Ensures-because}
use kvmux.Config.{parse_error, Config, ConfigError, Toml}
use kvmux.Config.Load.{TomlText, parsed, malformed, validate, load_string, load_file}
use kvmux.Config.Valid.{IsValidConfig}
use kvmux.Config.Ranges.{validate-IsValidConfig}
use kvmux.Main.{CommandLine, version, help, serve, parse_args, starts, from_file, from_line, main}

module _ (fp : Double) where
  -- Where the gateway starts, the configuration is one that the load gave for some path.
  from_line-starts :
      (load : Bytes → Result ConfigError (Config fp)) (line : CommandLine) (c : Config fp)
      → from_line fp load line ≡ starts c
      → (path : Bytes) × (load path ≡ ok c)
  from_line-starts load version c e = cc
  from_line-starts load help c e = cc
  from_line-starts load (serve []) c e = cc
  from_line-starts load (serve (b ∷ bs)) c e = (b ∷ bs, of_file (load (b ∷ bs)) e)
    where
      of_file : (r : Result ConfigError (Config fp)) → from_file fp r ≡ starts c → r ≡ ok c
      of_file (ok cfg) h = cc
      of_file (err x) h = cc

  module _ (toml : Toml fp) (lo : fp.lt (fp.tenths 8) (fp.tenths 0) ≡ false)
      (hi : fp.lt (fp.tenths 10) (fp.tenths 8) ≡ false) where
    pub load_file-Ensures :
        (parse : Bytes → Bytes → TomlText fp toml) (contents : Bytes → Option Bytes) (path : Bytes)
        → Ensures (IsValidConfig fp) (load_file fp toml parse contents path)
    unfolding load_file load_string
    load_file-Ensures parse contents path =
        either_some (Ensures _) (contents path) thrown (λ text. of_text (parse text path) path)
      where
        of_text :
            (t : TomlText fp toml) (name : Bytes)
            → Ensures (IsValidConfig fp) (elim t as (λ x. Result ConfigError (Config fp)) [
              | parsed root ↦ validate fp toml root
              | malformed description at ↦ err (parse_error name description at)
            ])
        of_text (parsed root) name =
            Ensures-because (validate fp toml root)
              (λ c. validate-IsValidConfig fp toml root c lo hi)
        of_text (malformed description at) name = thrown

  -- Whatever the arguments and the file, if the gateway starts, its configuration is valid: each integer in
  -- its documented range, a threshold neither below 0 nor above 1, at least one backend, with different
  -- names and at least one model each. The default threshold is supposed to lie between 0 and 1.
  pub main-IsValidConfig :
      (toml : Toml fp) (parse : Bytes → Bytes → TomlText fp toml) (contents : Bytes → Option Bytes)
      (args : List Bytes) (c : Config fp)
      → fp.lt (fp.tenths 8) (fp.tenths 0) ≡ false
      → fp.lt (fp.tenths 10) (fp.tenths 8) ≡ false
      → main fp (load_file fp toml parse contents) args ≡ starts c
      → IsValidConfig fp c
  unfolding main
  main-IsValidConfig toml parse contents args c lo hi e =
      let (path, loaded) =
        from_line-starts (load_file fp toml parse contents) (parse_args [] args) c e in
      Ensures-ok (load_file-Ensures toml lo hi parse contents path) loaded

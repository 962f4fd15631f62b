-- ===== src/Config/Fields.antt =====
-- What the section of the server, of the metrics and of the routing ensure.
use kvmux.Prelude.{ℕ, ◌≡◌, refl, true, false, ◌&&◌, arith, leb, either_some, Bytes, codes}
use kvmux.Prelude.Double.{Double}
use kvmux.Prelude.Result.{Ensures-then, Ensures-any, Result, Ensures, holds, thrown, Ensures-bind}
use kvmux.Config.{Toml, ConfigError, opt_int}
use kvmux.Config.Getters.{opt_int-Ensures, opt_double-Ensures}
use kvmux.Config.Sections.{server0, section_of, server_fields, metrics_fields, routing_fields}
use kvmux.Config.Valid.{Within, IsValidServer, IsValidRouting}

pub server0-IsValid : IsValidServer server0
server0-IsValid = record {
  port = omega arith;
  streams = omega arith;
  depth = omega arith;
  wait = omega arith;
  budget = omega arith;
}

module _ (fp : Double) (toml : Toml fp) where
  pub section_of-Ensures {ℓ} :
      {A : Type ℓ} (P : A → Type 0) (root : Toml.Table toml) (name : Bytes) (dflt : A)
      (fields : Toml.Table toml → Result ConfigError A)
      → P dflt
      → ((tbl : Toml.Table toml) → Ensures P (fields tbl))
      → Ensures P (section_of fp toml root name dflt fields)
  section_of-Ensures P root name dflt fields h k =
      either_some (Ensures P) (toml.get root name) (holds h)
        (λ node. either_some (Ensures P) (toml.as_table node) thrown k)

  pub opt_int-Within :
      (tbl : Toml.Table toml) (key section : Bytes) (d lo' hi' : ℕ)
      → (leb lo' d && leb d hi') ≡ true
      → Ensures (Within lo' hi') (opt_int fp toml tbl key section d lo' hi')
  opt_int-Within tbl key section d lo' hi' h =
      opt_int-Ensures fp toml tbl key section d lo' hi' (ground arith) (ground arith)

  pub server_fields-Ensures :
      (tbl : Toml.Table toml) → Ensures IsValidServer (server_fields fp toml tbl)
  unfolding server_fields
  server_fields-Ensures tbl = Ensures-then (λ _. Ensures-any _ (λ listen.
      Ensures-bind (opt_int-Within tbl (codes "port") (codes "server") 8080 1 65535 refl)
        (λ port p1.
          Ensures-bind
            (opt_int-Within tbl (codes "max_concurrent_streams") (codes "server") 256 1 1000000
              refl)
            (λ streams p2.
              Ensures-bind
                (opt_int-Within tbl (codes "queue_depth") (codes "server") 64 0 1000000 refl)
                (λ depth p3.
                  Ensures-bind
                    (opt_int-Within tbl (codes "queue_timeout_ms") (codes "server") 5000 0 3600000
                      refl)
                    (λ wait p4.
                      Ensures-bind
                        (opt_int-Within tbl (codes "request_timeout_ms") (codes "server") 300000 1
                          86400000 refl)
                        (λ budget p5. holds (record {
                          port = p1;
                          streams = p2;
                          depth = p3;
                          wait = p4;
                          budget = p5;
                        }))))))))

  pub metrics_fields-Ensures :
      (tbl : Toml.Table toml) → Ensures (Within 1 65535) (metrics_fields fp toml tbl)
  unfolding metrics_fields
  metrics_fields-Ensures tbl =
      Ensures-then (λ _. opt_int-Within tbl (codes "port") (codes "metrics") 9090 1 65535 refl)

  module _ (lo : fp.lt (fp.tenths 8) (fp.tenths 0) ≡ false)
      (hi : fp.lt (fp.tenths 10) (fp.tenths 8) ≡ false) where
    pub routing_fields-Ensures :
        (tbl : Toml.Table toml) → Ensures (IsValidRouting fp) (routing_fields fp toml tbl)
    unfolding routing_fields
    routing_fields-Ensures tbl = Ensures-then (λ _. Ensures-any _ (λ policy.
        Ensures-bind
          (opt_int-Within tbl (codes "prefix_bytes") (codes "routing") 1024 1 1048576 refl)
          (λ prefix p1.
            Ensures-bind
              (opt_double-Ensures fp toml tbl (codes "load_threshold") (codes "routing")
                (fp.tenths 8) (fp.tenths 0) (fp.tenths 10) lo hi)
              (λ threshold p2.
                holds (record { prefix = p1; not_below = p2.0; not_above = p2.1 })))))

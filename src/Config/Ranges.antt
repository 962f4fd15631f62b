-- ===== src/Config/Ranges.antt =====
-- What holds of a configuration that the loader accepts.
use kvmux.Prelude.{◌≡◌, false, arith, codes}
use kvmux.Prelude.Double.{Double}
use kvmux.Prelude.Result.{Ensures-then, ok, Ensures, holds, Ensures-ok, Ensures-bind}
use kvmux.Config.{Toml, Config}
use kvmux.Config.Sections.{
  server0, routing0, server_fields, parse_server, metrics_fields, parse_metrics, routing_fields,
  parse_routing,
}
use kvmux.Config.Load.{validate}
use kvmux.Config.Valid.{Within, IsValidServer, IsValidRouting, IsValidConfig}
use kvmux.Config.Fields.{
  server0-IsValid, section_of-Ensures, server_fields-Ensures, metrics_fields-Ensures,
  routing_fields-Ensures,
}
use kvmux.Config.Backends.{parse_backends-Ensures}

module _ (fp : Double) where
  module _ (toml : Toml fp) (lo : fp.lt (fp.tenths 8) (fp.tenths 0) ≡ false)
      (hi : fp.lt (fp.tenths 10) (fp.tenths 8) ≡ false) where
    validate-Ensures : (root : Toml.Table toml) → Ensures (IsValidConfig fp) (validate fp toml root)
    unfolding validate parse_server parse_metrics parse_routing
    validate-Ensures root = Ensures-then (λ _.
        Ensures-bind
          (section_of-Ensures fp toml IsValidServer root (codes "server") server0
            (server_fields fp toml) server0-IsValid (server_fields-Ensures fp toml))
          (λ server p1.
            Ensures-bind
              (section_of-Ensures fp toml (Within 1 65535) root (codes "metrics") 9090
                (metrics_fields fp toml) (omega arith) (metrics_fields-Ensures fp toml))
              (λ port p2.
                Ensures-bind
                  (section_of-Ensures fp toml (IsValidRouting fp) root (codes "routing")
                    (routing0 fp toml) (routing_fields fp toml)
                    (record { prefix = omega arith; not_below = lo; not_above = hi })
                    (routing_fields-Ensures fp toml lo hi))
                  (λ routing p3. Ensures-bind (parse_backends-Ensures fp toml root) (λ backends p4.
                    holds (record {
                      server = p1;
                      metrics = p2;
                      routing = p3;
                      some_backend = p4.0;
                      backends = p4.1;
                    }))))))

  -- If the default threshold lies between 0 and 1, every configuration that the loader accepts has each
  -- integer in its documented range, a threshold that compares neither below 0 nor above 1, at least one
  -- backend, backends with pairwise different names, and for each backend at least one model.
  pub validate-IsValidConfig :
      (toml : Toml fp) (root : Toml.Table toml) (c : Config fp)
      → fp.lt (fp.tenths 8) (fp.tenths 0) ≡ false
      → fp.lt (fp.tenths 10) (fp.tenths 8) ≡ false
      → validate fp toml root ≡ ok c
      → IsValidConfig fp c
  validate-IsValidConfig toml root c lo hi accepted =
      Ensures-ok (validate-Ensures toml lo hi root) accepted

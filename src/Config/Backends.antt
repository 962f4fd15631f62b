-- ===== src/Config/Backends.antt =====
-- What the entries for the backends ensure.
use kvmux.Prelude.{
  ◌≡◌, refl, ◌≢◌, inl, inr, false, List, [], ◌∷◌, Bool-cases, either_some, Bytes, codes,
}
use kvmux.Prelude.Double.{Double}
use kvmux.Prelude.Result.{
  Ensures-then, Ensures-any, Result, ok, throw_if, Ensures, holds, thrown, Ensures-ok, Ensures-bind,
}
use kvmux.Config.{Toml, BackendConfig, ConfigError, duplicate_name, contains}
use kvmux.Config.Sections.{
  backends_section, models_of, some_models, models_field, parse_backend, backends_from, some_tables,
  parse_backends,
}
use kvmux.Config.Valid.{IsValidBackend, AreValid}
use kvmux.Config.Fields.{opt_int-Within}

module _ (fp : Double) (toml : Toml fp) where
  models_of-Ensures :
      (name : Bytes) (m : Toml.Node toml) (ms : List (Toml.Node toml))
      → Ensures (λ (l : List Bytes). l ≢ []) (models_of fp toml name (m ∷ ms))
  unfolding models_of
  models_of-Ensures name m ms =
      either_some (Ensures _) (toml.as_string m) thrown
        (λ s. Ensures-any _ (λ rest. holds (λ e. cc)))

  models_field-Ensures :
      (tbl : Toml.Table toml) (name : Bytes)
      → Ensures (λ (l : List Bytes). l ≢ []) (models_field fp toml tbl name)
  unfolding models_field
  models_field-Ensures tbl name =
      either_some (Ensures _) (toml.get tbl (codes "models")) thrown
        (λ n. either_some (Ensures _) (toml.as_array n) thrown (some_or_none))
    where
      some_or_none :
          (ms : List (Toml.Node toml))
          → Ensures (λ (l : List Bytes). l ≢ []) (some_models fp toml name ms)
      some_or_none [] = thrown
      some_or_none (m ∷ ms) = models_of-Ensures name m ms

  parse_backend-Ensures :
      (seen : List Bytes) (tbl : Toml.Table toml)
      → Ensures
          (λ b. IsValidBackend b × (contains b.name seen ≡ false))
          (parse_backend fp toml seen tbl)
  unfolding parse_backend
  parse_backend-Ensures seen tbl = Ensures-then (λ _. Ensures-any _ (λ name. Ensures-then (λ fresh.
      Ensures-any _ (λ type. Ensures-any _ (λ url.
        Ensures-bind (models_field-Ensures tbl name) (λ models p0.
          Ensures-bind
            (opt_int-Within fp toml tbl (codes "max_in_flight") backends_section 8 1 1000000 refl)
            (λ most p1.
              Ensures-bind
                (opt_int-Within fp toml tbl (codes "health_interval_ms") backends_section 2000 100
                  3600000 refl)
                (λ interval p2.
                  Ensures-bind
                    (opt_int-Within fp toml tbl (codes "failure_threshold") backends_section 5 1
                      1000000 refl)
                    (λ threshold p3.
                      Ensures-bind
                        (opt_int-Within fp toml tbl (codes "open_ms") backends_section 10000 1
                          3600000 refl)
                        (λ window p4. holds (
                          record {
                            some_model = p0;
                            most = p1;
                            interval = p2;
                            threshold = p3;
                            window = p4;
                          },
                          unseen name fresh,
                        )))))))))))
    where
      unseen :
          (name : Bytes)
          → throw_if (contains name seen) (duplicate_name name) ≡ ok tt
          → contains name seen ≡ false
      unseen name e = elim (Bool-cases (contains name seen)) [ inl h ↦ cc (rw h at e) | inr h ↦ h ]

  backends_from-Ensures :
      (seen : List Bytes) (ts : List (Toml.Table toml))
      → Ensures (AreValid seen) (backends_from fp toml seen ts)
  unfolding backends_from
  backends_from-Ensures seen [] = holds tt
  backends_from-Ensures seen (t ∷ ts) = Ensures-bind (parse_backend-Ensures seen t) (λ b valid.
      Ensures-bind (backends_from-Ensures (b.name ∷ seen) ts)
        (λ bs later. holds (valid.0, valid.1, later)))

  backends_from-some :
      (t : Toml.Table toml) (ts : List (Toml.Table toml))
      → Ensures (λ (bs : List BackendConfig). bs ≢ []) (backends_from fp toml [] (t ∷ ts))
  unfolding backends_from
  backends_from-some t ts = Ensures-any _ (λ b. Ensures-any _ (λ bs. holds (λ e. cc)))

  pub parse_backends-Ensures :
      (root : Toml.Table toml)
      → Ensures (λ bs. (bs ≢ []) × AreValid [] bs) (parse_backends fp toml root)
  unfolding parse_backends
  parse_backends-Ensures root =
      either_some (Ensures _) (toml.get root (codes "backends")) thrown
        (λ node. either_some (Ensures _) (toml.as_tables node) thrown some_or_none)
    where
      both :
          {r : Result ConfigError (List BackendConfig)}
          → Ensures (λ (bs : List BackendConfig). bs ≢ []) r
          → Ensures (AreValid []) r
          → Ensures (λ bs. (bs ≢ []) × AreValid [] bs) r
      both (holds a) h = holds (a, Ensures-ok h refl)
      both thrown h = thrown

      some_or_none :
          (ts : List (Toml.Table toml))
          → Ensures (λ bs. (bs ≢ []) × AreValid [] bs) (some_tables fp toml ts)
      some_or_none [] = thrown
      some_or_none (t ∷ ts) = both (backends_from-some t ts) (backends_from-Ensures [] (t ∷ ts))

-- ===== src/Config/Valid.antt =====
-- What a valid configuration is.
use kvmux.Prelude.{ℕ, ◌≤◌, ◌≡◌, ◌≢◌, false, List, [], ◌∷◌, Bytes}
use kvmux.Prelude.Double.{Double}
use kvmux.Config.{ServerConfig, BackendConfig, RoutingConfig, Config, contains}

abbrev pub Within : ℕ → ℕ → ℕ → Type 0
Within lo hi n = (lo ≤ n) × (n ≤ hi)

pub record IsValidServer (s : ServerConfig) : Type 0 where
  pub port : Within 1 65535 s.port
  pub streams : Within 1 1000000 s.max_concurrent_streams
  pub depth : Within 0 1000000 s.queue_depth
  pub wait : Within 0 3600000 s.queue_timeout_ms
  pub budget : Within 1 86400000 s.request_timeout_ms

pub record IsValidBackend (b : BackendConfig) : Type 0 where
  pub some_model : b.models ≢ []
  pub most : Within 1 1000000 b.max_in_flight
  pub interval : Within 100 3600000 b.health_interval_ms
  pub threshold : Within 1 1000000 b.failure_threshold
  pub window : Within 1 3600000 b.open_ms

-- Each is valid, and its name is none of those before it.
abbrev pub AreValid : List Bytes → List BackendConfig → Type 0
AreValid seen [] = Unit
AreValid seen (b ∷ bs) =
    IsValidBackend b × (contains b.name seen ≡ false) × AreValid (b.name ∷ seen) bs

module _ (fp : Double) where
  pub record IsValidRouting (r : RoutingConfig fp) : Type 0 where
    pub prefix : Within 1 1048576 r.prefix_bytes
    pub not_below : fp.lt r.load_threshold (fp.tenths 0) ≡ false
    pub not_above : fp.lt (fp.tenths 10) r.load_threshold ≡ false

  pub record IsValidConfig (c : Config fp) : Type 0 where
    pub server : IsValidServer c.server
    pub metrics : Within 1 65535 c.metrics_port
    pub routing : IsValidRouting c.routing
    pub some_backend : c.backends ≢ []
    pub backends : AreValid [] c.backends

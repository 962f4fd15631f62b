-- ===== src/Routing.antt =====
-- src/routing: the data that both policies take and give, round robin, and prefix affinity.
pub mod RoundRobin
pub mod Canonical
pub mod Keys
pub mod Hrw
pub mod Affinity
pub mod Tests
use kvmux.Prelude.{ℕ, List, Bytes}

pub record Candidate : Type 0 where
  pub backend_index : ℕ
  pub active_requests : ℕ
  pub max_in_flight : ℕ

pub record RouteRequest : Type 0 where
  pub affinity_key : Bytes

pub record RouteOrder : Type 0 where
  pub order : List ℕ
  pub spills : ℕ

-- ===== src/Server/Gateway/Record.antt =====
-- What `handle_chat` of src/server/gateway.cpp tells the registry of a request by the time it returns: the spills and
-- the failures of the walk, and the `TerminalRecorder`. How a status is printed is an argument.
pub mod Totals
pub mod Served
pub mod Tests
use kvmux.Prelude.{ℕ, none, some, List, [], ◌∷◌, ◌==◌, if◌then◌else◌, get_elem?, Bytes, codes}
use kvmux.Prelude.Double.{Double}
use kvmux.Metrics.Series.{Labels}
use kvmux.Metrics.Registry.{
  Registry, inc_affinity_spills, inc_backend_failures, inc_requests_total, observe_e2e,
}
use kvmux.Server.Gateway.{Backend}
use kvmux.Server.Gateway.Walk.{Walk}
use kvmux.Server.Gateway.Chat.{Handled}

-- `blabels`
abbrev pub labels_of : Bytes → Bytes → Labels
labels_of model backend = record {
  route = codes "chat_completions";
  backend = backend;
  model = model;
}

-- `mlabels.backend`: the name of the backend that was dispatched to last, or none.
abbrev pub served_from : List Backend → List ℕ → Bytes
served_from bs [] = []
served_from bs (i ∷ []) = elim (get_elem? bs i) [ none ↦ [] | some b ↦ b.name ]
served_from bs (i ∷ j ∷ is) = served_from bs (j ∷ is)

module _ (fp : Double) (decimal : ℕ → Bytes) where
  unfoldable pub count_spills : Bytes → List (Bytes × ℕ) → Registry fp → Registry fp
  count_spills model [] r = r
  count_spills model ((backend, n) ∷ spilled) r =
      count_spills model spilled (inc_affinity_spills fp r (labels_of model backend) n)

  unfoldable pub count_failures : Bytes → List Bytes → Registry fp → Registry fp
  count_failures model [] r = r
  count_failures model (backend ∷ failures) r =
      count_failures model failures (inc_backend_failures fp r (labels_of model backend) 1)

  -- The destructor of the `TerminalRecorder`.
  unfoldable pub terminal : Registry fp → ℕ → Labels → Double.Value fp → Registry fp
  terminal r code labels seconds =
      if code == 0
      then r
      else observe_e2e fp (inc_requests_total fp r (decimal code)) labels seconds

  -- The spills and the failures of the walk are counted for different keys of different maps, so their order
  -- does not matter.
  unfoldable pub record_chat : Registry fp → Bytes → Double.Value fp → Handled → Registry fp
  unfolding count_spills count_failures terminal
  record_chat r model seconds h =
      terminal
        (count_failures model h.walk_state.failures (count_spills model h.walk_state.spilled r))
        h.final_code (labels_of model (served_from h.walk_state.backends h.walk_state.dispatched))
        seconds

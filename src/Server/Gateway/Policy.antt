-- ===== src/Server/Gateway/Policy.antt =====
-- `order_candidates` of src/server/gateway.cpp: the configured policy over a parsed request.
pub mod Sticky
use kvmux.Prelude.{ℕ, none, some, List, [], map, if◌then◌else◌, Bytes}
use kvmux.Prelude.Int.{pos}
use kvmux.Prelude.Double.{Double}
use kvmux.Config.{RoutingConfig, prefix_affinity, round_robin}
use kvmux.OpenAi.Json.{Json}
use kvmux.OpenAi.Request.{ChatMessage, ChatCompletionRequest}
use kvmux.Routing.{Candidate, RouteRequest, RouteOrder}
use kvmux.Routing.Canonical.{canonical_affinity_string}
use kvmux.Routing.RoundRobin.{RoundRobin}
use kvmux.Routing.RoundRobin
use kvmux.Routing.Affinity

module _ (J : Json) where
  unfoldable pub content_text : Json.Value J → Bytes
  content_text content = elim (J.as_string content) [
    | some s ↦ s
    | none ↦ if J.is_null content then [] else J.dump content
  ]

  abbrev pub turn : ChatMessage J → Bytes × Bytes
  turn m = (m.role, content_text m.content)

  abbrev pub turns : ChatCompletionRequest J → List (Bytes × Bytes)
  turns req = map turn req.messages

  module _ (fp : Double) (xxh64 : Bytes → ℕ) (routing : RoutingConfig fp) where
    abbrev pub affinity_key : ChatCompletionRequest J → Bytes
    affinity_key creq = canonical_affinity_string creq.model (turns creq) (pos routing.prefix_bytes)

    -- With the cursor of the round robin, which the baseline policy moves.
    unfoldable pub order_candidates :
        RoundRobin → ChatCompletionRequest J → List Candidate → RoundRobin × RouteOrder
    order_candidates rr creq candidates = elim (routing.policy) [
      | prefix_affinity ↦ (
        rr,
        Affinity.order fp xxh64 routing.load_threshold (record { affinity_key = affinity_key creq })
            candidates,
      )
      | round_robin ↦
          let (rr', ordered) = RoundRobin.order rr (record { affinity_key = [] }) candidates in
          (rr', record { order = ordered.order; spills = 0 })
    ]

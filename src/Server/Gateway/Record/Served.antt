-- ===== src/Server/Gateway/Record/Served.antt =====
-- The status that a chat request is answered with is the one that it is counted under.
use kvmux.Prelude.{ℕ, ◌≡◌, ◌≢◌, Bool, List, Bytes}
use mathlib.Core.Path.{subst}
use kvmux.Prelude.Double.{Double}
use kvmux.Metrics.Histogram.{bump}
use kvmux.Metrics.Registry.{Registry}
use kvmux.Config.{RoutingConfig}
use kvmux.Admission.Gate.{AdmitStatus}
use kvmux.OpenAi.Json.{Json}
use kvmux.Routing.RoundRobin.{RoundRobin}
use kvmux.Server.Gateway.{Backend}
use kvmux.Server.Gateway.Walk.{Round}
use kvmux.Server.Gateway.Chat.{code_of}
use kvmux.Server.Gateway.Codes.{handle_chat-code}
use kvmux.Server.Gateway.Serve.{render, read_body, route_of, parsed_of, handle_text}
use kvmux.Server.Gateway.Record.{record_chat}
use kvmux.Server.Gateway.Record.Totals.{total_of, record_chat-totals}

module _ (fp : Double) (decimal : ℕ → Bytes) where
  -- Counted once under the code, and under no other one; not at all if the code is 0.
  pub record IsCountedOnce (before after : Registry fp) (code : ℕ) : Type 0 where
    pub once : code ≢ 0 → total_of fp decimal after code ≡ bump (total_of fp decimal before code)
    pub elsewhere :
        (other : ℕ)
        → other ≢ code
        → total_of fp decimal after other ≡ total_of fp decimal before other
    pub uncounted : code ≡ 0 → after.requests_total ≡ before.requests_total

  module _ (J : Json) (xxh64 : Bytes → ℕ) (routing : RoutingConfig fp) (rr : RoundRobin)
      (keep_alive : Bool) (rounds : ℕ → Round) (status : AdmitStatus) where
    -- The status that the handler sets by hand on each of its branches, and that is counted as it ends, is the
    -- one of the reply that it gives there: that status is counted once and no other one is, whatever spills
    -- and failures the walk had, if different statuses are printed differently. A request that an exception
    -- of the socket ends before it has a status is not counted.
    pub handle_text-IsCountedOnce :
        (text : Bytes) (bs : List Backend) (r : Registry fp) (model : Bytes)
        (seconds : Double.Value fp)
        → ((a b : ℕ) → decimal a ≡ decimal b → a ≡ b)
        → IsCountedOnce r
            (record_chat fp decimal r model seconds
              (handle_text J fp xxh64 routing rr keep_alive rounds status text bs))
            (code_of (handle_text J fp xxh64 routing rr keep_alive rounds status text bs).reply)
    unfolding handle_text
    handle_text-IsCountedOnce text bs r model seconds injective =
        let body = read_body J text in
        let h = handle_text J fp xxh64 routing rr keep_alive rounds status text bs in
        let sent : h.final_code ≡ code_of h.reply =
          handle_chat-code (render J) keep_alive (route_of J fp xxh64 routing rr body) rounds status
            (parsed_of J fp xxh64 routing rr body) bs in
        let (once, elsewhere, uncounted) =
          record_chat-totals fp decimal r model seconds h injective in
        subst (λ code. IsCountedOnce r (record_chat fp decimal r model seconds h) code) sent
          (record { once = once; elsewhere = elsewhere; uncounted = uncounted })

-- ===== src/Server/Gateway/Record/Tests.antt =====
-- A request that two backends are tried for, the second of which answers it.
use kvmux.Prelude.{ℕ, true, [], ◌∷◌, length, Bytes, codes}
use kvmux.Metrics.Histogram.Tests.{whole_numbers}
use kvmux.Admission.Gate.{admitted}
use kvmux.Server.Gateway.Tests.{pair, rounds}
use kvmux.Server.Gateway.Construct.Tests.{empty_registry}
use kvmux.Server.Gateway.Chat.{code_of}
use kvmux.Server.Gateway.Serve.{handle_text}
use kvmux.Server.Gateway.Serve.Tests.{hello_text, by_turns, start}
use kvmux.Server.Gateway.Record.{record_chat}
use kvmux.Server.Gateway.Record.Served.{IsCountedOnce, handle_text-IsCountedOnce}

-- A status as one digit.
abbrev digit : ℕ → Bytes
digit n = n ∷ []

handle_text-IsCountedOnce_example :
    IsCountedOnce whole_numbers digit empty_registry
      (record_chat whole_numbers digit empty_registry (codes "m") 3 (
        handle_text hello_text whole_numbers length by_turns start true rounds admitted
          (codes "hello")
          pair))
      (code_of
        (handle_text hello_text whole_numbers length by_turns start true rounds admitted
          (codes "hello")
          pair).reply)
handle_text-IsCountedOnce_example =
    handle_text-IsCountedOnce whole_numbers digit hello_text length by_turns start true rounds
      admitted (codes "hello") pair empty_registry (codes "m") 3 (λ a b e. cc)

-- ===== src/Server/Gateway/Serve/Tests.antt =====
-- Requests as trees of nodes.
use kvmux.Upstream.Usage.{inject_include_usage}
use kvmux.Server.Gateway.Serve.Resent.{upstream_text-read_body}
use mathlib.Core.List.{Mem, Memᴰ}
use kvmux.Prelude.{
  ◌≤◌, ◌≡◌, refl, true, false, List, [], ◌∷◌, map, arith, length, Bytes, codes, equal, some,
}
use kvmux.Upstream.Client.{post_chat}
use kvmux.Prelude.Result.{◌>>=◌, ◌>>◌}
use kvmux.Health.Breaker.{allow_request, on_failure, on_success}
use kvmux.Admission.Gate.{admitted, queue_full}
use kvmux.Admission.Limiter.{try_acquire, release}
use kvmux.Metrics.Histogram.Tests.{whole_numbers}
use kvmux.Config.{RoutingConfig, prefix_affinity, round_robin}
use kvmux.OpenAi.Json.{Json, lookup}
use kvmux.OpenAi.Tree.{reading-Laws, Tree, nil, text, reading}
use kvmux.OpenAi.Tests.{hello, one_body}
use kvmux.OpenAi.Request.{
  ChatCompletionRequest, parse, parse_message, parse_messages, parse_stream, required,
}
use kvmux.Upstream.Client.{post_chat}
use kvmux.Routing.{Candidate}
use kvmux.Routing.Canonical.{canonical}
use kvmux.Routing.RoundRobin.{RoundRobin, collect}
use kvmux.Routing.RoundRobin
use kvmux.Server.Gateway.{backends_for_model, serving_from, serves, candidates_of, observed_health}
use kvmux.Server.Gateway.Tests.{pair, rounds}
use kvmux.Server.Gateway.Attempt.{unary_attempt}
use kvmux.Server.Gateway.Walk.{
  walk, visit, admit, dispatch, conclude, attempt, record_spills, map_from,
}
use kvmux.Server.Gateway.Chat.{settle, route_chat, admit_chat, handle_chat}
use kvmux.Server.Gateway.Policy.{content_text, turns, order_candidates}
use kvmux.Server.Gateway.Policy.Sticky.{order_candidates-later_turn}
use kvmux.Server.Gateway.Serve.{read_body, handle_text, request, upstream_text}
use kvmux.Server.Gateway.Serve.Sent.{IsFor, handle_text-IsFit}
use kvmux.Server.Gateway.Serve.Refusals.{IsOwnError, handle_text-IsOwnError}

abbrev pub hello_text : Json
hello_text = reading ((codes "hello", hello) ∷ [])

abbrev pub by_turns : RoutingConfig whole_numbers
by_turns = record { policy = round_robin; prefix_bytes = 4; load_threshold = 1 }

abbrev pub start : RoundRobin
start = record { cursor = 0 }

sent_to_first :
    Mem 0
      (handle_text hello_text whole_numbers length by_turns start true rounds admitted
        (codes "hello")
        pair).walk_state.dispatched
unfolding handle_text read_body parse parse_message parse_messages parse_stream required lookup
    equal ◌>>=◌ ◌>>◌ order_candidates RoundRobin.order collect walk visit admit dispatch conclude
    attempt record_spills map_from allow_request try_acquire release unary_attempt on_failure
    on_success handle_chat admit_chat route_chat settle backends_for_model serving_from serves
    candidates_of observed_health post_chat
sent_to_first = ∣ Memᴰ.head refl ∣₁

handle_text-IsFit_example : ∥ IsFor hello_text (read_body hello_text (codes "hello")) pair 0 ∥₁
handle_text-IsFit_example =
    handle_text-IsFit hello_text whole_numbers length by_turns start true rounds admitted
      (codes "hello") pair 0 sent_to_first

-- With the queue full nothing is sent.
nothing_sent :
    (handle_text hello_text whole_numbers length by_turns start true rounds queue_full
      (codes "hello")
      pair).walk_state.dispatched
    ≡ []
unfolding handle_text read_body parse parse_message parse_messages parse_stream required lookup
    equal ◌>>=◌ ◌>>◌ handle_chat admit_chat backends_for_model serving_from serves
nothing_sent = refl

handle_text-IsOwnError_example :
    IsOwnError hello_text true
      (handle_text hello_text whole_numbers length by_turns start true rounds queue_full
        (codes "hello")
        pair).reply
handle_text-IsOwnError_example =
    handle_text-IsOwnError hello_text whole_numbers length by_turns start true rounds queue_full
      (reading-Laws ((codes "hello", hello) ∷ [])) (codes "hello") pair nothing_sent

abbrev by_prefix : RoutingConfig whole_numbers
by_prefix = record { policy = prefix_affinity; prefix_bytes = 8; load_threshold = 1 }

abbrev turn_of : Bytes → Bytes → List Tree → ChatCompletionRequest hello_text
turn_of model role contents = record {
  model = model;
  messages = map (λ c. record { role = role; content = c }) contents;
  stream = false;
  raw = nil;
}

abbrev first_turn : ChatCompletionRequest hello_text
first_turn = turn_of (codes "m") (codes "user") (text (codes "hello") ∷ [])

abbrev second_turn : ChatCompletionRequest hello_text
second_turn = turn_of (codes "m") (codes "user") (text (codes "hello") ∷ text (codes "more") ∷ [])

abbrev candidates : List Candidate
candidates =
    record { backend_index = 0; active_requests = 0; max_in_flight = 4 }
    ∷ record { backend_index = 1; active_requests = 4; max_in_flight = 4 }
    ∷ []

fills_budget : 8 ≤ length (canonical first_turn.model (turns hello_text first_turn))
unfolding content_text
fills_budget = omega arith

order_candidates-later_turn_example :
    order_candidates hello_text whole_numbers length by_prefix start second_turn candidates
    ≡ order_candidates hello_text whole_numbers length by_prefix start first_turn candidates
order_candidates-later_turn_example =
    order_candidates-later_turn hello_text whole_numbers length by_prefix start first_turn
      second_turn (record { role = codes "user"; content = text (codes "more") } ∷ []) candidates
      refl refl refl fills_budget

-- The text of an object begins it, so the library of this test tells the sent body by its first bytes.
abbrev pub sent : Tree
sent = inject_include_usage one_body hello

abbrev pub both_texts : Json
both_texts = reading ((codes "hello", hello) ∷ (codes "{}", sent) ∷ [])

abbrev pub hello_again : ChatCompletionRequest both_texts
hello_again = record {
  model = codes "m";
  messages = record { role = codes "user"; content = text (codes "hi") } ∷ [];
  stream = false;
  raw = hello;
}

pub reads_hello : read_body both_texts (codes "hello") ≡ request hello_again
unfolding read_body parse parse_message parse_messages parse_stream required lookup equal ◌>>=◌ ◌>>◌
reads_hello = refl

pub reads_sent :
    Json.parse both_texts (Json.dump both_texts (inject_include_usage both_texts hello))
    ≡ some (inject_include_usage both_texts hello)
unfolding inject_include_usage lookup equal
reads_sent = refl

upstream_text-read_body_example :
    (read_body both_texts (upstream_text both_texts hello_again)
      ≡ request (record hello_again { raw = inject_include_usage both_texts hello }))
    × (options : Tree) × (Json.find both_texts
          (inject_include_usage both_texts hello)
          (codes "stream_options")
        ≡ some options)
    × (Json.find both_texts options (codes "include_usage") ≡ some (Json.bool both_texts true))
upstream_text-read_body_example =
    upstream_text-read_body both_texts
      (reading-Laws ((codes "hello", hello) ∷ (codes "{}", sent) ∷ [])) (codes "hello") hello_again
      reads_hello reads_sent

-- ===== src/Lib.antt =====
-- The verification library of kvmux, a gateway in front of several LLM servers that speaks the
-- OpenAI HTTP interface and streams answers as server-sent events (SSE).
--
-- A chat request is parsed, waits for a slot of the global gate, is given an order of backends by
-- the routing policy, and walks along that order: each backend's circuit breaker and in-flight
-- limiter are asked, the upstream is called, and its SSE stream is parsed and written frame by
-- frame to the client. Each file models one of these parts:
--
--   Prelude/*             what the modules share: lists and Boolean tests over native numbers,
--                         byte strings; Prelude/Double is the interface for the type double,
--                         Prelude/Result the result of code that throws, Prelude/Int the integers.
--   Health/Breaker        src/health/circuit_breaker.hpp, .cpp (CircuitBreaker). A method holds the
--                         mutex throughout, so it is one function; the clock's value is an argument.
--   Health/Checker        src/health/checker.hpp, .cpp (evaluate_health_endpoint, evaluate_ollama,
--                         the results of a probe); Monitoring is HealthMonitor::probe_once with
--                         its requests, and the loop of HealthMonitor::run with stop, one step
--                         from each co_await to the next. What becomes of a request that is sent
--                         is an argument.
--   Admission/Gate        src/admission/controller.hpp, .cpp (GlobalGate). acquire is split at its
--                         co_await into enter and resume; a world of coroutines and tickets around
--                         it makes arrivals, timeouts, grants and releases in any order.
--   Admission/Limiter     PerBackendLimiter of controller.hpp: the compare-exchange loop with what
--                         other threads write as an argument, and in Threads any number of threads
--                         that access the counter in any order.
--   Admission/Holder      BackendSlot and Ticket of controller.hpp, which have the same members.
--   Routing/*             src/routing: policy.hpp, round_robin.cpp (RoundRobin), prefix_affinity.cpp
--                         (Canonical: the key, Hrw: rendezvous ranking, Affinity: the load guard).
--                         Keys is the key of a parsed request. The hash XXH64 is a parameter.
--   Upstream/Sse          src/upstream/sse_parser.hpp, .cpp (SseParser), byte by byte.
--   Upstream/Client       src/upstream/client.cpp (stream_chat, post_chat, get). What connecting, the
--                         header and each read come to is an argument; the sink is any function.
--   Upstream/Target       Target::parse of src/upstream/client.cpp: a backend's base URL.
--   Upstream/Usage        inject_include_usage of src/upstream/client.cpp.
--   Upstream/Requests     the requests that the client writes, and to which host and port.
--   OpenAi/*              src/openai: Json is the interface for nlohmann::json, with its laws; Errors
--                         the kinds, status codes and type strings; Bodies make_error,
--                         wrap_upstream_error and the model cards; Request
--                         ChatCompletionRequest::parse and RequestError.
--   Config/*              src/config.hpp, .cpp: the getters with their checks, Sections, and Load
--                         (validate, load_string, load_file), over an interface for toml++. Bounds
--                         are natural numbers, and an error is a value without the wording.
--   Server/SseWriter      src/server/sse_writer.hpp, .cpp (SseWriter): the pieces sent, where each
--                         write may fail.
--   Server/Gateway        src/server/gateway.hpp, .cpp: the backends and the choice of candidates;
--                         Attempt is one dispatch, Walk the failover loop, Chat the handler around
--                         it, Routes the entry point with the drain, Policy order_candidates,
--                         Serve the handler from the body's text on, Record what it tells the
--                         registry, Gauges publish_admission_gauges, Construct the constructor,
--                         Hooks write_json and the hooks for tests. There what other requests do
--                         to a backend while one waits is an argument. Concurrent has the walks of
--                         all requests at once: each position is two steps, around its co_await,
--                         and a walk is a run of them. Chats are the chats in flight with the
--                         gate. Models is the answer to /v1/models, Outbound the request to a
--                         backend. Life is the gateway from its start to its end: the chats let in
--                         and left, the monitors, and the signal.
--   Server/Listener       src/server/listener.cpp: the session loop over what the reads give, the
--                         accept loops, and the sessions of the metrics endpoint.
--   Metrics/*             src/metrics/registry.hpp, .cpp: Histogram, Series (label sets and their
--                         escapes), Registry (the maps of series and counters, and Fresh with the
--                         constructor and the buckets), Exposition (the text of write and expose).
--   Main                  src/main.cpp: the command line, the load of the configuration, the exit
--                         status or the two endpoints (Process), the poll of the drainer, and a
--                         whole shutdown (Graceful).
--
-- Parts meet as in the code: Main loads what Config checks; Construct makes a gateway of it; Serve
-- parses with OpenAi/Request, orders with Policy and runs Chat; Walk calls Breaker, Limiter and
-- Client; Client calls Sse and the sink of Attempt; that sink calls SseWriter. A signal makes Life
-- drain and stop the loops of Health/Checker, and Main polls the chats that Life counts. The tests and
-- concrete examples are in modules named Tests; OpenAi/Tree is an instance of the JSON interface for them.
--
-- Loops are recursion on what they consume: the order, the reads, the bytes, the candidates, the
-- arguments. The exchange loop of the limiter recurs on the list of rounds and says when the list has
-- run out: a round that neither fails spuriously nor meets another thread ends it. The drainer's poll
-- has fuel 301, which is enough since each poll comes 100 ms after the last and the window is 30 s.
-- Counters are natural numbers, but for the round robin cursor and the counters of the metrics, which
-- wrap at 2 ^ 64.
--
-- Not modelled: Boost.Asio and Beast (sockets, timers, HTTP), nlohmann::json, toml++ and XXH64, which
-- are arguments or parameters where the code uses them; that rendering JSON throws on a string that is
-- not UTF-8, which may leave a status counted that no reply carries; the times that the latency observations are given; how the io_context picks the coroutine
-- that goes on, in whose place any order of steps is allowed; what binding the two ports comes to; the
-- text that main prints.
pub mod Prelude
pub mod Health
pub mod Admission
pub mod Routing
pub mod Upstream
pub mod Metrics
pub mod OpenAi
pub mod Config
pub mod Server
pub mod Main

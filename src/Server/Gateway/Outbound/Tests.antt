-- ===== src/Server/Gateway/Outbound/Tests.antt =====
-- A request to a backend whose base URL has a path.
use kvmux.Prelude.{◌≡◌, refl, inr, false, none, [], ◌∷◌, Bytes, codes}
use kvmux.Prelude.Result.{ok}
use kvmux.Health.Checker.{dead, vllm}
use kvmux.Health.Breaker
use kvmux.Config.{BackendConfig}
use kvmux.OpenAi.Tree.{reading-Laws}
use kvmux.OpenAi.Tests.{hello}
use kvmux.OpenAi.Request.{ChatCompletionRequest}
use kvmux.Upstream.Target.{Target, parse, host_and_port, up_to, past, strip_prefix}
use kvmux.Server.Gateway.{Backend}
use kvmux.Server.Gateway.Construct.{make_backend, with_target}
use kvmux.Server.Gateway.Serve.{request, read_body}
use kvmux.Server.Gateway.Serve.Tests.{both_texts, hello_again, reads_hello, reads_sent, sent}
use kvmux.Server.Gateway.Outbound.{outbound, IsChatPost, outbound-make_backend}

abbrev with_path : BackendConfig
with_path = record {
  name = codes "gpu0";
  type = vllm;
  base_url = codes "http://gpu0:8000/v1";
  models = codes "m" ∷ [];
  max_in_flight = 8;
  health_interval_ms = 2000;
  failure_threshold = 5;
  open_ms = 10000;
}

abbrev made_of : Target × Backend
made_of = (
  record { host = codes "gpu0"; port = codes "8000" },
  record {
    name = codes "gpu0";
    models = codes "m" ∷ [];
    health = dead;
    breaker = Breaker.new 5 10000;
    limiter = record { max_in_flight = 8; active = 0 };
    forced_health = none;
  },
)

makes_one : make_backend with_path ≡ ok made_of
unfolding make_backend with_target parse host_and_port up_to past strip_prefix
makes_one = refl

outbound-make_backend_example :
    (body : Bytes) × (again : ChatCompletionRequest both_texts) × IsChatPost both_texts
      (outbound both_texts made_of.0 hello_again)
      (codes "gpu0")
      (codes "8000")
      body
      false
    × (read_body both_texts body ≡ request again)
    × (again.model ≡ codes "m")
    × (again.messages ≡ hello_again.messages)
    × (again.stream ≡ false)
outbound-make_backend_example =
    outbound-make_backend both_texts
      (reading-Laws ((codes "hello", hello) ∷ (codes "{}", sent) ∷ [])) with_path (codes "gpu0")
      (codes "8000") (codes "/v1") (λ e. cc) (λ e. cc) (refl, (refl, (refl, (refl, tt))))
      (refl, (refl, (refl, (refl, tt)))) (refl, (refl, (refl, (refl, tt)))) (inr (codes "v1", refl))
      refl made_of makes_one (codes "hello") hello_again reads_hello reads_sent

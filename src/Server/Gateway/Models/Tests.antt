-- ===== src/Server/Gateway/Models/Tests.antt =====
-- Two backends that share a model.
use kvmux.Prelude.{◌≡◌, refl, true, false, [], ◌∷◌, codes, equal}
use kvmux.OpenAi.Json.{Json}
use kvmux.OpenAi.Tree.{Tree, reading-Laws}
use kvmux.OpenAi.Tests.{one_body, ollama_error}
use kvmux.Server.Gateway.Attempt.{Reply, json_reply}
use kvmux.Server.Gateway.Routes.{models, serve_route}
use kvmux.Server.Gateway.Serve.{render}
use kvmux.Server.Gateway.{list_models, unseen, serves}
use kvmux.Server.Gateway.Tests.{pair}
use kvmux.Server.Gateway.Models.{IsModelList, serve_route-IsModelList}

abbrev no_chat : Unit {0} × Reply
no_chat = (tt, json_reply 500 [] false)

one_model : list_models [] pair ≡ codes "m" ∷ []
unfolding list_models unseen serves equal
one_model = refl

serve_route-IsModelList_example :
    (body : Tree) × ((serve_route (render one_body) true pair no_chat (λ n. n) 0 models).reply
      ≡ json_reply 200 (Json.dump one_body body) true)
    × IsModelList one_body body pair
serve_route-IsModelList_example =
    serve_route-IsModelList one_body (reading-Laws ((codes "oops", ollama_error) ∷ [])) true pair
      no_chat (λ n. n) 0

-- ===== src/OpenAi/Tests.antt =====
-- Bodies and requests as trees.
use kvmux.Prelude.{true, some, ◌≡◌, refl, ◌↔◌, false, [], ◌∷◌, Bytes, codes, equal}
use kvmux.Prelude.Result.{ok, err, ◌>>=◌, ◌>>◌}
use kvmux.OpenAi.Errors.{invalid_request}
use kvmux.OpenAi.Json.{Json}
use kvmux.OpenAi.Tree.{
  Tree, text, items, obj, no_trees, tree, no_members, member, reading, reading-Laws,
}
use kvmux.OpenAi.Bodies.{wrap_upstream_error}
use kvmux.OpenAi.Bodies.Shapes.{Wrapping, wrap_upstream_error_lem}
use kvmux.OpenAi.Request.{
  ChatCompletionRequest, parse, parse_messages, parse_message, parse_stream, required, bad_role,
}
use kvmux.OpenAi.Request.Views.{IsRequest, parse_iff}
use kvmux.OpenAi.Request.Blame.{Blames, parse-Blames}
use kvmux.Upstream.Usage.{inject_include_usage}
use kvmux.Upstream.Usage.Laws.{inject_include_usage_lem, IsKept, inject_include_usage_lem, IsKept}

-- The error of an Ollama backend.
abbrev pub ollama_error : Tree
ollama_error = obj (member (codes "error") (text (codes "model not found")) no_members)

abbrev pub one_body : Json
one_body = reading ((codes "oops", ollama_error) ∷ [])

wrap_upstream_error_lem_example :
    Wrapping one_body (codes "oops") 404 (wrap_upstream_error one_body (codes "oops") 404)
wrap_upstream_error_lem_example =
    wrap_upstream_error_lem one_body (reading-Laws ((codes "oops", ollama_error) ∷ []))
      (codes "oops") 404

abbrev pub hello : Tree
hello = obj (
    member (codes "model") (text (codes "m")) (
      member (codes "messages")
        (items (
          tree
            (obj (
              member (codes "role") (text (codes "user"))
                (member (codes "content") (text (codes "hi")) no_members)))
            no_trees))
        no_members))

abbrev pub hello_request : ChatCompletionRequest one_body
hello_request = record {
  model = codes "m";
  messages = record { role = codes "user"; content = text (codes "hi") } ∷ [];
  stream = false;
  raw = hello;
}

parse_hello : parse one_body hello ≡ ok hello_request
unfolding parse parse_messages parse_message parse_stream required equal ◌>>=◌ ◌>>◌
parse_hello = refl

parse_iff_example :
    (parse one_body hello ≡ ok hello_request) ↔ IsRequest one_body hello hello_request
parse_iff_example = parse_iff one_body hello hello_request

abbrev no_role : Tree
no_role = obj (
    member (codes "model") (text (codes "m"))
      (member (codes "messages") (items (tree (text (codes "hi")) no_trees)) no_members))

parse_no_role : parse one_body no_role ≡ err bad_role
unfolding parse parse_messages parse_message parse_stream required equal ◌>>=◌ ◌>>◌
parse_no_role = refl

parse-Blames_example : (bad_role.kind ≡ invalid_request) × Blames one_body no_role bad_role
parse-Blames_example = parse-Blames one_body no_role bad_role parse_no_role

inject_include_usage_lem_example :
    (Json.is_object one_body (inject_include_usage one_body hello) ≡ true)
    × ((k : Bytes)
        → equal (codes "stream_options") k ≡ false
        → Json.find one_body (inject_include_usage one_body hello) k ≡ Json.find one_body hello k)
    × (options : Tree) × (Json.find one_body
          (inject_include_usage one_body hello)
          (codes "stream_options")
        ≡ some options)
    × (Json.is_object one_body options ≡ true)
    × (Json.find one_body options (codes "include_usage") ≡ some (Json.bool one_body true))
    × ((k : Bytes)
        → equal (codes "include_usage") k ≡ false
        → IsKept one_body hello k (Json.find one_body options k))
inject_include_usage_lem_example =
    inject_include_usage_lem one_body (reading-Laws ((codes "oops", ollama_error) ∷ [])) hello refl

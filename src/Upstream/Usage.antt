-- ===== src/Upstream/Usage.antt =====
-- `inject_include_usage` of src/upstream/client.cpp.
pub mod Laws
use kvmux.Prelude.{true, none, some, [], if◌then◌else◌, codes}
use kvmux.OpenAi.Json.{Json}

module _ (J : Json) where
  -- The stream options, if there is an object of them, or else the empty object that replaces them.
  abbrev pub options_of : Json.Value J → Json.Value J
  options_of body = elim (J.find body (codes "stream_options")) [
    | none ↦ J.object []
    | some o ↦ if J.is_object o then o else J.object []
  ]

  unfoldable pub inject_include_usage : Json.Value J → Json.Value J
  inject_include_usage body =
      if J.is_object body
      then J.set body (codes "stream_options")
          (J.set (options_of body) (codes "include_usage") (J.bool true))
      else body

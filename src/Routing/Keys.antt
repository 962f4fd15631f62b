-- ===== src/Routing/Keys.antt =====
-- `content_to_string`, `affinity_key_hash` and `affinity_key_for_request` of src/routing/prefix_affinity.cpp, over the
-- JSON library and XXH64 with seed 0.
use kvmux.Prelude.{ℕ, Option, none, some, List, [], ◌∷◌, ◌++◌, map, if◌then◌else◌, Bytes, codes}
use kvmux.Prelude.Int.{ℤ}
use kvmux.OpenAi.Json.{Json}
use kvmux.OpenAi.Request.{ChatCompletionRequest}
use kvmux.Routing.Canonical.{canonical_affinity_string}

module _ (J : Json) where
  -- `part["text"]` where it is a string.
  abbrev pub text_of : Json.Value J → Option Bytes
  text_of part =
      if J.is_object part
      then elim (J.find part (codes "text")) [ none ↦ none | some t ↦ J.as_string t ]
      else none

  abbrev pub part_text : Json.Value J → Bytes
  part_text part = elim (text_of part) [ none ↦ J.dump part | some s ↦ s ]

  unfoldable pub parts_text : List (Json.Value J) → Bytes
  parts_text [] = []
  parts_text (p ∷ ps) = part_text p ++ parts_text ps

  unfoldable pub content_to_string : Json.Value J → Bytes
  unfolding parts_text
  content_to_string content = elim (J.as_string content) [
    | some s ↦ s
    | none ↦
        if J.is_null content
        then []
        else elim (J.as_array content) [ none ↦ J.dump content | some parts ↦ parts_text parts ]
  ]

  module _ (xxh64 : Bytes → ℕ) where
    abbrev pub affinity_key_hash : Bytes → ℕ
    affinity_key_hash canonical = xxh64 canonical

    unfoldable pub affinity_key_for_request : ChatCompletionRequest J → ℤ → ℕ
    unfolding content_to_string
    affinity_key_for_request req prefix_bytes = affinity_key_hash (
        canonical_affinity_string req.model
          (map (λ m. (m.role, content_to_string m.content)) req.messages) prefix_bytes)

-- ===== src/Upstream/Usage/Laws.antt =====
-- What the injection of `include_usage` changes.
use kvmux.Prelude.{
  ◌≡◌, refl, ◌∙◌, inl, inr, true, false, Option, none, some, [], ◌⊎◌, match_some, match_bool, Bytes,
  codes, equal,
}
use kvmux.Prelude.Result.{ok}
use kvmux.OpenAi.Json.{Json, Laws, lookup}
use kvmux.OpenAi.Request.{ChatCompletionRequest, parse}
use kvmux.OpenAi.Request.Views.{Field, parse_iff}
use kvmux.Upstream.Usage.{options_of, inject_include_usage}

module _ (J : Json) where
  -- What the options of the new body hold under a key: what they held, or nothing if there was no object.
  abbrev pub IsKept : Json.Value J → Bytes → Option (Json.Value J) → Type 0
  IsKept body k v =
      ((o : Json.Value J) × (J.find body (codes "stream_options") ≡ some o)
        × (J.is_object o ≡ true)
        × (v ≡ J.find o k))
      ⊎ (((o : Json.Value J)
            → J.find body (codes "stream_options") ≡ some o
            → J.is_object o ≡ false)
          × (v ≡ none))

module _ (J : Json) (laws : Laws J) where
  options_of-object : (body : Json.Value J) → J.is_object (options_of J body) ≡ true
  options_of-object body =
      match_some (λ o. J.is_object o ≡ true) (J.find body (codes "stream_options"))
        (λ gone. laws.object_is_object [])
        (λ o there.
          match_bool (λ x. J.is_object x ≡ true) (J.is_object o) (λ h. h)
            (λ h. laws.object_is_object []))

  options_of-IsKept :
      (body : Json.Value J) (k : Bytes) → IsKept J body k (J.find (options_of J body) k)
  unfolding lookup
  options_of-IsKept body k =
      match_some (λ x. IsKept J body k (J.find x k)) (J.find body (codes "stream_options"))
        (λ gone. inr (λ o there. cc, laws.find_object [] k))
        (λ o there.
          match_bool (λ x. IsKept J body k (J.find x k)) (J.is_object o)
            (λ h. inl (o, there, h, refl)) (λ h. inr (λ o' there'. cc, laws.find_object [] k)))

  -- Of an object body, the injection keeps every member but `stream_options`. The new stream options are an
  -- object in which `include_usage` is true; every other option is the one that the client's stream options
  -- held, if those were an object, and is missing if there were none or they were no object.
  pub inject_include_usage_lem :
      (body : Json.Value J)
      → J.is_object body ≡ true
      → (J.is_object (inject_include_usage J body) ≡ true)
        × ((k : Bytes)
            → equal (codes "stream_options") k ≡ false
            → J.find (inject_include_usage J body) k ≡ J.find body k)
        × (options : Json.Value J) × (J.find (inject_include_usage J body) (codes "stream_options")
            ≡ some options)
        × (J.is_object options ≡ true)
        × (J.find options (codes "include_usage") ≡ some (J.bool true))
        × ((k : Bytes)
            → equal (codes "include_usage") k ≡ false
            → IsKept J body k (J.find options k))
  unfolding inject_include_usage
  inject_include_usage_lem body o = rw o (
    laws.set_is_object body _ _ o,
    λ k other. laws.find_set_other body (codes "stream_options") k _ o other,
    J.set (options_of J body) (codes "include_usage") (J.bool true),
    laws.find_set body _ _ o,
    laws.set_is_object _ _ _ (options_of-object body),
    laws.find_set _ _ _ (options_of-object body),
    λ k other.
        rw (laws.find_set_other _ _ k _ (options_of-object body) other) (options_of-IsKept body k),
  )

  -- The backend reads the same request: the injected body is accepted, with the model, the messages and the
  -- `stream` flag of the client's.
  pub inject_include_usage-parse :
      (body : Json.Value J) (req : ChatCompletionRequest J)
      → parse J body ≡ ok req
      → parse J (inject_include_usage J body)
        ≡ ok (record req { raw = inject_include_usage J body })
  unfolding equal
  inject_include_usage-parse body req accepted =
      let h = (parse_iff J body req).0 accepted in
      let (o, kept, options, there, whole, on, others) = inject_include_usage_lem body h.object in
      (parse_iff J _ _).1 (record {
        object = o;
        model = same (codes "model") J.as_string (kept (codes "model") refl) h.model;
        items = h.items;
        array = same (codes "messages") J.as_array (kept (codes "messages") refl) h.array;
        some_item = h.some_item;
        messages = h.messages;
        stream = elim h.stream [
          | inl (gone, off) ↦ inl (kept (codes "stream") refl ∙ gone, off)
          | inr there ↦ inr (same (codes "stream") J.as_bool (kept (codes "stream") refl) there)
        ];
        raw = refl;
      })
    where
      same :
          {A : Type 0} {a : A} {j j' : Json.Value J} (k : Bytes) (view : Json.Value J → Option A)
          → J.find j k ≡ J.find j' k
          → Field J j' k view a
          → Field J j k view a
      same k view e (v, there, right) = (v, e ∙ there, right)

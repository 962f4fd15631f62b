-- ===== src/OpenAi/Bodies/Shapes.antt =====
-- The shape of the error bodies.
use kvmux.Prelude.{
  sym, false, refl, ◌∙◌, ◌⊎◌, inl, inr, ◌&&◌, Option, none, arith, if◌then◌else◌, Bool-cases,
  Option-cases, ℕ, ◌≡◌, true, some, Bytes, codes, equal, is_empty,
}
use kvmux.OpenAi.Json.{Json, Laws, lookup}
use kvmux.OpenAi.Errors.{ErrorKind, status_code, error_type}
use kvmux.OpenAi.Bodies.{
  wrap_parsed, has, wrap_upstream_error, make_error, wrap_member, wrap_raw, wrap_text,
}

module _ (J : Json) where
  -- An object whose member `error` is an object with a message: the test of `wrap_upstream_error`.
  pub record IsShaped (j : Json.Value J) : Type 0 where
    pub whole : J.is_object j ≡ true
    pub inner : Json.Value J
    pub error : J.find j (codes "error") ≡ some inner
    pub inner_object : J.is_object inner ≡ true
    pub text : Json.Value J
    pub message : J.find inner (codes "message") ≡ some text

  -- The object of the OpenAI interface, with its four members.
  pub record IsErrorBody (j : Json.Value J) (text type : Bytes) (param : Json.Value J) (code : ℕ)
      : Type 0 where
    pub whole : J.is_object j ≡ true
    pub inner : Json.Value J
    pub error : J.find j (codes "error") ≡ some inner
    pub inner_object : J.is_object inner ≡ true
    pub message_is : J.find inner (codes "message") ≡ some (J.string text)
    pub type_is : J.find inner (codes "type") ≡ some (J.string type)
    pub param_is : J.find inner (codes "param") ≡ some param
    pub code_is : J.find inner (codes "code") ≡ some (J.number code)

  -- The member `error` of an object body is this string.
  abbrev pub SaysError : Bytes → Bytes → Type 0
  SaysError body text =
      (parsed : Json.Value J) × (e : Json.Value J) × (J.parse body ≡ some parsed)
      × (J.is_object parsed ≡ true)
      × (J.find parsed (codes "error") ≡ some e)
      × (J.as_string e ≡ some text)

  -- The text that stands in for a body that is no error object.
  abbrev pub IsTextOf : Bytes → Bytes → Type 0
  IsTextOf text body =
      SaysError body text
      ⊎ (((said : Bytes) → SaysError body said → ⊥)
          × (text ≡ (if is_empty body then codes "upstream request failed" else body)))

  abbrev pub Unshaped : Bytes → Type 0
  Unshaped body = (parsed : Json.Value J) → J.parse body ≡ some parsed → IsShaped parsed → ⊥

  abbrev pub Wrapping : Bytes → ℕ → Json.Value J → Type 0
  Wrapping body status w =
      ((J.parse body ≡ some w) × IsShaped w)
      ⊎ (Unshaped body
          × (text : Bytes) × IsTextOf text body
          × IsErrorBody w text (codes "upstream_error") J.null status)

  module _ (laws : Laws J) where
    wrap_text-IsErrorBody :
        (text : Bytes) (status : ℕ)
        → IsErrorBody (wrap_text J text status) text (codes "upstream_error") J.null status
    unfolding lookup equal
    wrap_text-IsErrorBody text status = record {
      whole = laws.object_is_object _;
      inner = _;
      error = laws.find_object _ _;
      inner_object = laws.object_is_object _;
      message_is = laws.find_object _ _;
      type_is = laws.find_object _ _;
      param_is = laws.find_object _ _;
      code_is = laws.find_object _ _;
    }

    -- The error that the gateway builds has the four members of the OpenAI interface, its code is the HTTP
    -- status of the kind, and `param` is null exactly if the parameter is empty.
    pub make_error-IsErrorBody :
        (kind : ErrorKind) (message param : Bytes)
        → IsErrorBody
            (make_error J kind message param)
            message
            (error_type kind)
            (if is_empty param then J.null else J.string param)
            (status_code kind)
    unfolding make_error lookup equal
    make_error-IsErrorBody kind message param =
        let plain = laws.object_is_object _ in
        record {
          whole = laws.object_is_object _;
          inner = _;
          error = laws.find_object _ _;
          inner_object = laws.set_is_object _ _ _ plain;
          message_is = laws.find_set_other _ _ _ _ plain refl ∙ laws.find_object _ _;
          type_is = laws.find_set_other _ _ _ _ plain refl ∙ laws.find_object _ _;
          param_is = laws.find_set _ _ _ plain;
          code_is = laws.find_set_other _ _ _ _ plain refl ∙ laws.find_object _ _;
        }

    wrap_raw-Wrapping :
        (body : Bytes) (status : ℕ)
        → Unshaped body
        → ((said : Bytes) → SaysError body said → ⊥)
        → Wrapping body status (wrap_raw J body status)
    wrap_raw-Wrapping body status plain silent =
        inr (plain, _, inr (silent, refl), wrap_text-IsErrorBody _ status)

    shape :
        (parsed e : Json.Value J)
        → J.is_object parsed ≡ true
        → J.find parsed (codes "error") ≡ some e
        → (J.is_object e && has J e (codes "message")) ≡ true
        → IsShaped parsed
    shape parsed e o m h = elim (Option-cases (J.find e (codes "message"))) [
      | inl gone ↦ ground arith
      | inr (t, there) ↦ record {
        whole = o;
        inner = e;
        error = m;
        inner_object = ground arith;
        text = t;
        message = there;
      }
    ]

    -- The test that fails for a member of the body is the one that the shape asks.
    unshaped :
        (parsed e : Json.Value J) (body : Bytes)
        → J.parse body ≡ some parsed
        → J.find parsed (codes "error") ≡ some e
        → (J.is_object e && has J e (codes "message")) ≡ false
        → Unshaped body
    unshaped parsed e body p m other q at h =
        let there : some parsed ≡ some q = sym p ∙ at in
        let same : some e ≡ some h.inner = cc (m, h.error, there) in
        let whole : J.is_object e ≡ true = cc (same, h.inner_object) in
        let message : J.find e (codes "message") ≡ some h.text = cc (same, h.message) in
        cc (rw (has, whole, message) at other)

    wrap_member-Wrapping :
        (parsed e : Json.Value J) (body : Bytes) (status : ℕ)
        → J.parse body ≡ some parsed
        → J.is_object parsed ≡ true
        → J.find parsed (codes "error") ≡ some e
        → Wrapping body status (wrap_member J parsed e body status)
    unfolding wrap_member
    wrap_member-Wrapping parsed e body status p o m =
        elim (Bool-cases (J.is_object e && has J e (codes "message"))) [
          | inl shaped ↦ rw shaped (inl (p, shape parsed e o m shaped))
          | inr other ↦
              let plain = unshaped parsed e body p m other in
              rw other (elim (Option-cases (J.as_string e)) [
                | inl none_there ↦
                    rw none_there
                      (wrap_raw-Wrapping body status plain (λ said (q, f, at, oq, mq, s). cc))
                | inr (s, there) ↦ rw there (
                    inr (plain, s, inl (parsed, e, p, o, m, there), wrap_text-IsErrorBody s status))
              ])
        ]

    wrap_parsed-Wrapping :
        (parsed : Option (Json.Value J)) (body : Bytes) (status : ℕ)
        → J.parse body ≡ parsed
        → Wrapping body status (wrap_parsed J parsed body status)
    unfolding wrap_parsed
    wrap_parsed-Wrapping none body status p =
        wrap_raw-Wrapping body status (λ q at h. cc) (λ said (q, f, at, oq, mq, s). cc)
    wrap_parsed-Wrapping (some parsed) body status p = elim (Bool-cases (J.is_object parsed)) [
      | inr other ↦ rw other (
          wrap_raw-Wrapping body status (λ q at h. let whole = h.whole in cc)
            (λ said (q, f, at, oq, mq, s). cc))
      | inl o ↦ rw o (elim (Option-cases (J.find parsed (codes "error"))) [
        | inl gone ↦ rw gone (
            wrap_raw-Wrapping body status (λ q at h. let error = h.error in cc)
              (λ said (q, f, at, oq, mq, s). cc))
        | inr (e, m) ↦ rw m (wrap_member-Wrapping parsed e body status p o m)
      ])
    ]

    -- The JSON value that an upstream's error body is turned into: the body's own value, unchanged, if that is
    -- an object whose `error` is an object with a message. Otherwise an object of type `upstream_error`, with
    -- the upstream's status as its code and null as its param, whose message is the body's `error` if the body
    -- is an object with a string there, and if not, the body's text, or a fixed text if it is empty.
    pub wrap_upstream_error_lem :
        (body : Bytes) (status : ℕ) → Wrapping body status (wrap_upstream_error J body status)
    unfolding wrap_upstream_error
    wrap_upstream_error_lem body status = wrap_parsed-Wrapping (J.parse body) body status refl

    IsErrorBody-IsShaped :
        {j : Json.Value J} {text type : Bytes} {param : Json.Value J} {code : ℕ}
        → IsErrorBody j text type param code
        → IsShaped j
    IsErrorBody-IsShaped h = record {
      whole = h.whole;
      inner = h.inner;
      error = h.error;
      inner_object = h.inner_object;
      text = _;
      message = h.message_is;
    }

    wrap_parsed-shaped :
        (j : Json.Value J) (body : Bytes) (status : ℕ)
        → IsShaped j
        → wrap_parsed J (some j) body status ≡ j
    unfolding wrap_parsed wrap_member
    wrap_parsed-shaped j body status h = rw (has, h.whole, h.error, h.inner_object, h.message) refl

    -- Where the JSON library reads back what it renders of the two, an upstream's error that went through one
    -- gateway, and a gateway's own error, go through a further gateway unchanged, whatever status that one
    -- sees.
    pub wrap_upstream_error-twice :
        (body : Bytes) (status later : ℕ) (kind : ErrorKind) (message param : Bytes)
        → J.parse (J.dump (wrap_upstream_error J body status))
          ≡ some (wrap_upstream_error J body status)
        → J.parse (J.dump (make_error J kind message param))
          ≡ some (make_error J kind message param)
        → (wrap_upstream_error J (J.dump (wrap_upstream_error J body status)) later
            ≡ wrap_upstream_error J body status)
          × (wrap_upstream_error J (J.dump (make_error J kind message param)) later
              ≡ make_error J kind message param)
    unfolding wrap_upstream_error
    wrap_upstream_error-twice body status later kind message param reads reads_own = (
      again (wrap_upstream_error J body status) reads
          (shaped (wrap_upstream_error_lem body status)),
      again (make_error J kind message param) reads_own
          (IsErrorBody-IsShaped (make_error-IsErrorBody kind message param)),
    )
      where
        again :
            (j : Json.Value J)
            → J.parse (J.dump j) ≡ some j
            → IsShaped j
            → wrap_parsed J (J.parse (J.dump j)) (J.dump j) later ≡ j
        again j read h = rw read (wrap_parsed-shaped j (J.dump j) later h)

        shaped : {w : Json.Value J} → Wrapping body status w → IsShaped w
        shaped (inl (p, h)) = h
        shaped (inr (plain, text, of, h)) = IsErrorBody-IsShaped h

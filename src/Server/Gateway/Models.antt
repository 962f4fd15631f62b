-- ===== src/Server/Gateway/Models.antt =====
-- The answer to `/v1/models` of src/server/gateway.cpp.
pub mod Tests
use kvmux.Prelude.{
  ℕ, ◌≡◌, refl, sym, ◌∙◌, inl, inr, Bool, true, false, ◌||◌, some, List, [], ◌∷◌, ◌++◌, map, arith,
  Bool-cases, Bytes, codes, equal, equal_iff,
}
use kvmux.OpenAi.Json.{Json, Laws, lookup}
use kvmux.OpenAi.Bodies.{card, to_json, models_body}
use kvmux.Server.Gateway.Attempt.{Reply, json_reply}
use kvmux.Server.Gateway.Routes.{models, serve_route}
use kvmux.Server.Gateway.Serve.{render}
use kvmux.Server.Gateway.{Backend, serves, unseen, list_models}

serves-append :
    (m k : Bytes) (ms : List Bytes) → serves m (ms ++ k ∷ []) ≡ (serves m ms || equal k m)
unfolding serves
serves-append m k [] = ground arith
serves-append m k (j ∷ ms) = ground (arith, serves-append m k ms)

equal_sym : (s t : Bytes) → equal s t ≡ false → equal t s ≡ false
equal_sym s t h = elim (Bool-cases (equal t s)) [
  | inl e ↦ cc ((equal_iff s t).1 (sym ((equal_iff t s).0 e)), h)
  | inr e ↦ e
]

-- No id stands twice.
abbrev pub IsUnique : List Bytes → Type 0
IsUnique [] = Unit
IsUnique (m ∷ ms) = (serves m ms ≡ false) × IsUnique ms

append-IsUnique :
    (k : Bytes) (ms : List Bytes) → IsUnique ms → serves k ms ≡ false → IsUnique (ms ++ k ∷ [])
unfolding serves
append-IsUnique k [] h e = (refl, tt)
append-IsUnique k (m ∷ ms) (h, hs) e =
    let other : equal k m ≡ false = equal_sym m k (ground arith) in
    let rest : serves k ms ≡ false = ground arith in
    (serves-append m k ms ∙ rw (h, other) refl, append-IsUnique k ms hs rest)

-- Some backend has the model in its list.
pub some_serves : Bytes → List Backend → Bool
some_serves m [] = false
some_serves m (b ∷ bs) = serves m b.models || some_serves m bs

unseen-serves :
    (seen ms : List Bytes) (m : Bytes) → serves m (unseen seen ms) ≡ (serves m seen || serves m ms)
unfolding unseen serves
unseen-serves seen [] m = ground arith
unseen-serves seen (k ∷ ms) m = elim (Bool-cases (serves k seen)) [
  | inl known ↦
      let here : equal k m ≡ true → serves m seen ≡ true = λ e. rw ((equal_iff k m).0 e) at known in
      rw (unseen, known) (ground (arith, unseen-serves seen ms m, here))
  | inr fresh ↦
      rw (unseen, fresh)
        (ground (arith, unseen-serves (seen ++ k ∷ []) ms m, serves-append m k seen))
]

unseen-IsUnique : (seen ms : List Bytes) → IsUnique seen → IsUnique (unseen seen ms)
unfolding unseen
unseen-IsUnique seen [] h = h
unseen-IsUnique seen (k ∷ ms) h = elim (Bool-cases (serves k seen)) [
  | inl known ↦ rw (unseen, known) (unseen-IsUnique seen ms h)
  | inr fresh ↦
      rw (unseen, fresh) (unseen-IsUnique (seen ++ k ∷ []) ms (append-IsUnique k seen h fresh))
]

list_models-serves :
    (seen : List Bytes) (bs : List Backend) (m : Bytes)
    → serves m (list_models seen bs) ≡ (serves m seen || some_serves m bs)
unfolding list_models some_serves
list_models-serves seen [] m = ground arith
list_models-serves seen (b ∷ bs) m =
    ground (arith, list_models-serves (unseen seen b.models) bs m, unseen-serves seen b.models m)

list_models-IsUnique :
    (seen : List Bytes) (bs : List Backend) → IsUnique seen → IsUnique (list_models seen bs)
unfolding list_models
list_models-IsUnique seen [] h = h
list_models-IsUnique seen (b ∷ bs) h =
    list_models-IsUnique (unseen seen b.models) bs (unseen-IsUnique seen b.models h)

module _ (J : Json) where
  -- The model object of the OpenAI interface.
  pub record IsModelCard (j : Json.Value J) (id : Bytes) : Type 0 where
    pub whole : J.is_object j ≡ true
    pub id_is : J.find j (codes "id") ≡ some (J.string id)
    pub object_is : J.find j (codes "object") ≡ some (J.string (codes "model"))
    pub created_is : J.find j (codes "created") ≡ some (J.number 0)
    pub owner_is : J.find j (codes "owned_by") ≡ some (J.string (codes "kvmux"))

  abbrev pub AreModelCards : List (Json.Value J) → List Bytes → Type 0
  AreModelCards [] [] = Unit
  AreModelCards (j ∷ js) (id ∷ ids) = IsModelCard j id × AreModelCards js ids
  AreModelCards _ _ = ⊥

  -- The list object of the interface, with a card for each model that some backend has, and one only.
  pub record IsModelList (j : Json.Value J) (bs : List Backend) : Type 0 where
    pub whole : J.is_object j ≡ true
    pub object_is : J.find j (codes "object") ≡ some (J.string (codes "list"))
    pub cards : List (Json.Value J)
    pub data_is : J.find j (codes "data") ≡ some (J.array cards)
    pub ids : List Bytes
    pub are_cards : AreModelCards cards ids
    pub unique : IsUnique ids
    pub served : (m : Bytes) → serves m ids ≡ some_serves m bs

  module _ (laws : Laws J) where
    to_json-IsModelCard : (id : Bytes) → IsModelCard (to_json J (card id)) id
    unfolding to_json lookup equal
    to_json-IsModelCard id = record {
      whole = laws.object_is_object _;
      id_is = laws.find_object _ _;
      object_is = laws.find_object _ _;
      created_is = laws.find_object _ _;
      owner_is = laws.find_object _ _;
    }

    map-AreModelCards : (ids : List Bytes) → AreModelCards (map (λ m. to_json J (card m)) ids) ids
    map-AreModelCards [] = tt
    map-AreModelCards (id ∷ ids) = (to_json-IsModelCard id, map-AreModelCards ids)

    -- The answer to `/v1/models` is a list object of the OpenAI interface, with one model object for each
    -- model that some backend has, and no other.
    pub serve_route-IsModelList :
        {S : Type 0} (keep_alive : Bool) (bs : List Backend) (chat : S × Reply) (others : ℕ → ℕ)
        (in_flight : ℕ)
        → (body : Json.Value J) × ((serve_route
              (render J)
              keep_alive
              bs
              chat
              others
              in_flight
              models).reply
            ≡ json_reply 200 (J.dump body) keep_alive)
          × IsModelList body bs
    unfolding serve_route render models_body lookup equal serves
    serve_route-IsModelList keep_alive bs chat others in_flight = (
      models_body J (list_models [] bs),
      refl,
      record {
        whole = laws.object_is_object _;
        object_is = laws.find_object _ _;
        cards = map (λ m. to_json J (card m)) (list_models [] bs);
        data_is = laws.find_object _ _;
        ids = list_models [] bs;
        are_cards = map-AreModelCards (list_models [] bs);
        unique = list_models-IsUnique [] bs tt;
        served = λ m. list_models-serves [] bs m;
      },
    )

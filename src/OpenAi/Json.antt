-- ===== src/OpenAi/Json.antt =====
-- What the gateway calls of nlohmann::json, as an interface, with the documented behaviour of those calls.
use kvmux.Prelude.{
  ℕ, ◌≡◌, Bool, true, false, Option, none, some, List, [], ◌∷◌, if◌then◌else◌, Bytes, equal,
}

pub record Json : Type 1 where
  pub Value : Type 0
  -- `json::parse` without exceptions: `none` is a discarded value
  pub parse : Bytes → Option Value
  pub dump : Value → Bytes
  -- `is_string` with `get<std::string>`, and so on
  pub as_string : Value → Option Bytes
  pub as_bool : Value → Option Bool
  pub as_array : Value → Option (List Value)
  pub is_object : Value → Bool
  pub is_null : Value → Bool
  -- `find`, or `contains` with `operator[]`
  pub find : Value → Bytes → Option Value
  -- `j[key] = v`
  pub set : Value → Bytes → Value → Value
  pub object : List (Bytes × Value) → Value
  pub array : List Value → Value
  pub string : Bytes → Value
  pub number : ℕ → Value
  pub bool : Bool → Value
  pub null : Value

-- The value at the first place of a key in a list of members.
unfoldable pub lookup : {A : Type 0} → List (Bytes × A) → Bytes → Option A
lookup [] key = none
lookup ((k, v) ∷ rest) key = if equal k key then some v else lookup rest key

-- An initializer list gives an object with its members, of equal keys the first; assigning to a member of
-- an object changes that one only.
pub record Laws (J : Json) : Type 0 where
  pub object_is_object : (ms : List (Bytes × Json.Value J)) → J.is_object (J.object ms) ≡ true
  pub find_object :
      (ms : List (Bytes × Json.Value J)) (k : Bytes) → J.find (J.object ms) k ≡ lookup ms k
  pub set_is_object :
      (j : Json.Value J) (k : Bytes) (v : Json.Value J)
      → J.is_object j ≡ true
      → J.is_object (J.set j k v) ≡ true
  pub find_set :
      (j : Json.Value J) (k : Bytes) (v : Json.Value J)
      → J.is_object j ≡ true
      → J.find (J.set j k v) k ≡ some v
  pub find_set_other :
      (j : Json.Value J) (k other : Bytes) (v : Json.Value J)
      → J.is_object j ≡ true
      → equal k other ≡ false
      → J.find (J.set j k v) other ≡ J.find j other
  pub string_is_string : (s : Bytes) → J.as_string (J.string s) ≡ some s
  pub bool_is_bool : (b : Bool) → J.as_bool (J.bool b) ≡ some b

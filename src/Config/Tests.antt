-- ===== src/Config/Tests.antt =====
-- Configurations as trees of nodes, with natural numbers for the doubles, and with a `nan` beside them.
use kvmux.Prelude.{
  ℕ, ◌+◌, ◌*◌, ◌/◌, ◌≡◌, refl, Bool, true, false, Option, none, some, List, [], ◌∷◌, arith, ltb,
  leb, if◌then◌else◌, Bytes, codes, equal,
}
use kvmux.Prelude.Int.{pos}
use kvmux.Prelude.Double.{Double}
use kvmux.Prelude.Result.{ok, err, ◌>>=◌, ◌>>◌}
use kvmux.Health.Checker.{vllm}
use kvmux.Metrics.Histogram.Tests.{thousands_le, whole_numbers}
use kvmux.Routing.{Candidate}
use kvmux.Config.{
  Toml, Config, duplicate_name, reject_unknown_keys, req_string, opt_string, opt_int,
  parse_backend_type,
}
use kvmux.Config.Sections.{
  server0, routing0, server_fields, parse_server, parse_metrics, parse_routing, type_field,
  models_field, parse_backends,
}
use kvmux.Config.Load.{validate}

mutual
  pub data Value : Type 0 where
    text : Bytes → Value
    number : ℕ → Value
    array : Items → Value
    table : Fields → Value

  pub data Items : Type 0 where
    none_left : Items
    item : Value → Items → Items

  pub data Fields : Type 0 where
    no_fields : Fields
    field : Bytes → Value → Fields → Fields

abbrev items : Items → List Value
items none_left = []
items (item v vs) = v ∷ items vs

abbrev fields : Fields → List (Bytes × Value)
fields no_fields = []
fields (field k v fs) = (k, v) ∷ fields fs

abbrev get_field : List (Bytes × Value) → Bytes → Option Value
get_field [] k = none
get_field ((j, v) ∷ fs) k = if equal j k then some v else get_field fs k

abbrev text_of : Value → Option Bytes
text_of (text s) = some s
text_of _ = none

abbrev table_of : Value → Option Fields
table_of (table fs) = some fs
table_of _ = none

abbrev array_of : Value → Option (List Value)
array_of (array vs) = some (items vs)
array_of _ = none

abbrev tables_in : List Value → Option (List Fields)
tables_in [] = some []
tables_in (v ∷ vs) = elim (table_of v) [
  | none ↦ none
  | some t ↦ elim (tables_in vs) [ none ↦ none | some ts ↦ some (t ∷ ts) ]
]

abbrev tables_of : Value → Option (List Fields)
tables_of (array (item v vs)) = tables_in (v ∷ items vs)
tables_of _ = none

abbrev pub trees : Toml whole_numbers
trees = record {
  Node = Value;
  Table = Fields;
  entries = fields;
  get = λ t k. get_field (fields t) k;
  line = λ n. 1;
  column = λ n. 1;
  as_string = text_of;
  as_integer = λ v. elim v [ number n ↦ some (pos n) | other ↦ none ];
  as_float = λ v. none;
  as_array = array_of;
  as_table = table_of;
  as_tables = tables_of;
}

abbrev gpu : Value
gpu = table (
    field (codes "name") (text (codes "gpu0")) (
      field (codes "type") (text (codes "vllm")) (
        field (codes "base_url") (text (codes "http://gpu0:8000"))
          (field (codes "models") (array (item (text (codes "m")) none_left)) no_fields))))

abbrev pub small : Fields
small =
    field (codes "server") (table (field (codes "port") (number 80) no_fields))
      (field (codes "backends") (array (item gpu none_left)) no_fields)

abbrev pub loaded : Config whole_numbers
loaded = record {
  server = record server0 { port = 80 };
  metrics_port = 9090;
  routing = routing0 whole_numbers trees;
  backends =
      record {
        name = codes "gpu0";
        type = vllm;
        base_url = codes "http://gpu0:8000";
        models = codes "m" ∷ [];
        max_in_flight = 8;
        health_interval_ms = 2000;
        failure_threshold = 5;
        open_ms = 10000;
      }
      ∷ [];
}

pub small_loads : validate whole_numbers trees small ≡ ok loaded
unfolding validate ◌>>◌ reject_unknown_keys equal ◌>>=◌ parse_server server_fields opt_string
    opt_int parse_metrics parse_routing parse_backends req_string type_field parse_backend_type
    models_field
small_loads = refl

-- The same backend twice, and a section that is not known.
same_name_twice :
    validate whole_numbers trees
      (field (codes "backends") (array (item gpu (item gpu none_left))) no_fields)
    ≡ err (duplicate_name (codes "gpu0"))
unfolding validate ◌>>◌ reject_unknown_keys equal ◌>>=◌ parse_server server_fields opt_string
    opt_int parse_metrics parse_routing parse_backends req_string type_field parse_backend_type
    models_field
same_name_twice = refl

-- Numbers with a `nan`, which is `none` and of which no comparison holds.
abbrev compare_some : (ℕ → ℕ → Bool) → Option ℕ → Option ℕ → Bool
compare_some test (some a) (some b) = test a b
compare_some test _ _ = false

abbrev combine : (ℕ → ℕ → ℕ) → Option ℕ → Option ℕ → Option ℕ
combine f (some a) (some b) = some (f a b)
combine f _ _ = none

pub le_some_trans :
    (a b c : Option ℕ)
    → compare_some leb a b ≡ true
    → compare_some leb b c ≡ true
    → compare_some leb a c ≡ true
le_some_trans (some a) (some b) (some c) h k = ground arith
le_some_trans none b c h k = cc
le_some_trans (some a) none c h k = cc
le_some_trans (some a) (some b) none h k = cc

abbrev with_nan : Double
with_nan = record {
  Value = Option ℕ;
  zero_value = some 0;
  of_int = some;
  of_int64 = λ z. elim z [ pos n ↦ some n | other ↦ none ];
  tenths = λ n. some (n / 10);
  add = combine ◌+◌;
  mul = combine ◌*◌;
  lt = compare_some ltb;
  le = compare_some leb;
  le_trans = le_some_trans;
  thousandths = λ n. some (n / 1000);
  thousandths_le = thousands_le;
}

-- A single table whose one key has the value `nan`.
abbrev nan_table : Toml with_nan
nan_table = record {
  Node = Unit {0};
  Table = Unit {0};
  entries = λ t. (codes "load_threshold", tt) ∷ [];
  get = λ t k. some tt;
  line = λ n. 1;
  column = λ n. 1;
  as_string = λ n. none;
  as_integer = λ n. none;
  as_float = λ n. some none;
  as_array = λ n. none;
  as_table = λ n. none;
  as_tables = λ n. none;
}

-- A backend with all its places taken, which a threshold of 0.8 would skip.
abbrev full : Candidate
full = record { backend_index = 0; active_requests = 4; max_in_flight = 4 }

no_lt_left : (w : Option ℕ) → compare_some ltb none w ≡ false
no_lt_left w = refl

no_lt_right : (w : Option ℕ) → compare_some ltb w none ≡ false
no_lt_right none = refl
no_lt_right (some a) = refl

no_le : (x y : Option ℕ) → compare_some leb (combine ◌*◌ none x) y ≡ false
no_le x y = refl

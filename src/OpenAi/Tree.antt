-- ===== src/OpenAi/Tree.antt =====
-- An instance of the JSON interface: trees of nodes, which read back two texts.
use kvmux.Prelude.{
  ℕ, ◌≡◌, refl, inl, inr, Bool, true, false, Option, none, some, List, [], ◌∷◌, if◌then◌else◌,
  Bool-cases, Bytes, codes, equal, equal_iff,
}
use kvmux.OpenAi.Json.{Json, Laws, lookup}

mutual
  pub data Tree : Type 0 where
    nil : Tree
    text : Bytes → Tree
    int : ℕ → Tree
    flag : Bool → Tree
    items : Trees → Tree
    obj : Members → Tree

  pub data Trees : Type 0 where
    no_trees : Trees
    tree : Tree → Trees → Trees

  pub data Members : Type 0 where
    no_members : Members
    member : Bytes → Tree → Members → Members

abbrev pub get : Members → Bytes → Option Tree
get no_members k = none
get (member j t ms) k = if equal j k then some t else get ms k

abbrev pub put : Members → Bytes → Tree → Members
put no_members k v = member k v no_members
put (member j t ms) k v = if equal j k then member j v ms else member j t (put ms k v)

abbrev pub members : List (Bytes × Tree) → Members
members [] = no_members
members ((k, t) ∷ ms) = member k t (members ms)

abbrev pub trees : List Tree → Trees
trees [] = no_trees
trees (t ∷ ts) = tree t (trees ts)

abbrev pub listed : Trees → List Tree
listed no_trees = []
listed (tree t ts) = t ∷ listed ts

abbrev pub find_in : Tree → Bytes → Option Tree
find_in (obj ms) k = get ms k
find_in _ k = none

abbrev pub set_in : Tree → Bytes → Tree → Tree
set_in (obj ms) k v = obj (put ms k v)
set_in t k v = t

-- The outer text of a tree, which is enough to tell the trees of the tests apart.
abbrev pub outline : Tree → Bytes
outline (obj (member k (obj (member l (text s) ms)) no_members)) = s
outline (obj ms) = codes "{}"
outline (items ts) = codes "[]"
outline t = []

-- The library that reads the given text as the given tree, and no other.
abbrev pub reading : List (Bytes × Tree) → Json
reading known = record {
  Value = Tree;
  parse = λ s. lookup known s;
  dump = outline;
  as_string = λ t. elim t [ text s ↦ some s | other ↦ none ];
  as_bool = λ t. elim t [ flag b ↦ some b | other ↦ none ];
  as_array = λ t. elim t [ items ts ↦ some (listed ts) | other ↦ none ];
  is_object = λ t. elim t [ obj ms ↦ true | other ↦ false ];
  is_null = λ t. elim t [ nil ↦ true | other ↦ false ];
  find = find_in;
  set = set_in;
  object = λ ms. obj (members ms);
  array = λ ts. items (trees ts);
  string = text;
  number = int;
  bool = flag;
  null = nil;
}

get-members : (ms : List (Bytes × Tree)) (k : Bytes) → get (members ms) k ≡ lookup ms k
unfolding lookup
get-members [] k = refl
get-members ((j, t) ∷ ms) k = rw (get-members ms k) refl

equal_refl : (s : Bytes) → equal s s ≡ true
equal_refl s = (equal_iff s s).1 refl

get-put : (ms : Members) (k : Bytes) (v : Tree) → get (put ms k v) k ≡ some v
get-put no_members k v = rw (equal_refl k) refl
get-put (member j t ms) k v = elim (Bool-cases (equal j k)) [
  | inl e ↦ rw (e, e) refl
  | inr e ↦ rw (e, e) (get-put ms k v)
]

get-put_other :
    (ms : Members) (k other : Bytes) (v : Tree)
    → equal k other ≡ false
    → get (put ms k v) other ≡ get ms other
get-put_other no_members k other v h = rw h refl
get-put_other (member j t ms) k other v h = elim (Bool-cases (equal j k)) [
  | inl e ↦ let d : equal j other ≡ false = rw ((equal_iff j k).0 e) h in rw (e, d) refl
  | inr e ↦ rw (e, get-put_other ms k other v h) refl
]

pub reading-Laws : (known : List (Bytes × Tree)) → Laws (reading known)
reading-Laws known = record {
  object_is_object = λ ms. refl;
  find_object = get-members;
  set_is_object = λ j k v h. set_object j k v h;
  find_set = find_same;
  find_set_other = find_other;
  string_is_string = λ s. refl;
  bool_is_bool = λ b. refl;
}
  where
    set_object :
        (j : Tree) (k : Bytes) (v : Tree)
        → Json.is_object (reading known) j ≡ true
        → Json.is_object (reading known) (set_in j k v) ≡ true
    set_object (obj ms) k v h = refl
    set_object _ k v h = cc

    find_same :
        (j : Tree) (k : Bytes) (v : Tree)
        → Json.is_object (reading known) j ≡ true
        → find_in (set_in j k v) k ≡ some v
    find_same (obj ms) k v h = get-put ms k v
    find_same _ k v h = cc

    find_other :
        (j : Tree) (k other : Bytes) (v : Tree)
        → Json.is_object (reading known) j ≡ true
        → equal k other ≡ false
        → find_in (set_in j k v) other ≡ find_in j other
    find_other (obj ms) k other v h e = get-put_other ms k other v e
    find_other _ k other v h e = cc

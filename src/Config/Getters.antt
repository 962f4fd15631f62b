-- ===== src/Config/Getters.antt =====
-- What the getters accept.
use kvmux.Prelude.{
  ℕ, ◌≤◌, ◌≡◌, refl, ◌↔◌, ◌⊎◌, inl, inr, true, false, ◌||◌, some, List, [], ◌∷◌, arith, ltb,
  Bool-cases, either_some, All, Bytes, codes, equal, equal_iff,
}
use kvmux.Prelude.Int.{ℤ, pos, negsuc}
use kvmux.Prelude.Double.{Double}
use kvmux.Prelude.Result.{ok, Ensures, holds, thrown}
use kvmux.Health.Checker.{BackendType, vllm, llamacpp, ollama}
use kvmux.Config.{
  Toml, ConfigError, out_of_range, to_string, contains, node_loc, reject_unknown_keys, int_in,
  opt_int, number_of, opt_double, parse_backend_type,
}

-- The list has the text.
abbrev pub IsIn : Bytes → List Bytes → Type 0
IsIn s [] = ⊥
IsIn s (t ∷ ts) = (s ≡ t) ⊎ IsIn s ts

pub contains_iff : (s : Bytes) (ts : List Bytes) → (contains s ts ≡ true) ↔ IsIn s ts
unfolding contains
contains_iff s [] = (λ h. cc, λ h. elim h [ ])
contains_iff s (t ∷ ts) = ground (arith, equal_iff s t, contains_iff s ts)

module _ (fp : Double) (toml : Toml fp) where
  -- A table is accepted exactly if each of its keys is known; the error names the first that is not.
  pub reject_unknown_keys_iff :
      (entries : List (Bytes × Toml.Node toml)) (allowed : List Bytes) (section : Bytes)
      → (reject_unknown_keys fp toml entries allowed section ≡ ok tt)
        ↔ All (λ e. IsIn e.0 allowed) entries
  unfolding reject_unknown_keys
  reject_unknown_keys_iff [] allowed section = (λ h. tt, λ h. refl)
  reject_unknown_keys_iff ((key, node) ∷ rest) allowed section =
      ground (arith, contains_iff key allowed, reject_unknown_keys_iff rest allowed section)

  int_in-Ensures :
      (v : ℤ) (lo hi : ℕ) (e : ConfigError)
      → Ensures (λ n. (lo ≤ n) × (n ≤ hi)) (int_in fp toml v lo hi e)
  unfolding int_in
  int_in-Ensures (pos n) lo hi e = elim (Bool-cases (ltb n lo || ltb hi n)) [
    | inl out ↦ rw out thrown
    | inr in_range ↦ rw in_range (holds (ground arith, ground arith))
  ]
  int_in-Ensures (negsuc n) lo hi e = thrown

  pub opt_int-Ensures :
      (tbl : Toml.Table toml) (key section : Bytes) (dflt lo hi : ℕ)
      → lo ≤ dflt
      → dflt ≤ hi
      → Ensures (λ n. (lo ≤ n) × (n ≤ hi)) (opt_int fp toml tbl key section dflt lo hi)
  unfolding opt_int
  opt_int-Ensures tbl key section dflt lo hi h k =
      either_some (Ensures _) (toml.get tbl key) (holds (h, k)) (λ node.
        either_some (Ensures _) (toml.as_integer node) thrown
          (λ v. int_in-Ensures v lo hi (out_of_range key section (some v) (node_loc fp toml node))))

  pub opt_double-Ensures :
      (tbl : Toml.Table toml) (key section : Bytes) (dflt lo hi : Double.Value fp)
      → fp.lt dflt lo ≡ false
      → fp.lt hi dflt ≡ false
      → Ensures
          (λ v. (fp.lt v lo ≡ false) × (fp.lt hi v ≡ false))
          (opt_double fp toml tbl key section dflt lo hi)
  unfolding opt_double
  opt_double-Ensures tbl key section dflt lo hi h k =
      either_some (Ensures _) (toml.get tbl key) (holds (h, k)) (λ node.
        either_some (Ensures _) (number_of fp toml node) thrown (λ v.
          elim (Bool-cases (fp.lt v lo || fp.lt hi v)) [
            | inl out ↦ rw out thrown
            | inr in_range ↦ rw in_range (holds (ground arith, ground arith))
          ]))

  -- Both names of a type and the type itself: the text of a backend type parses to it, and no other text
  -- parses to it.
  pub parse_backend_type_iff :
      (s : Bytes) (n : Toml.Node toml) (t : BackendType)
      → (parse_backend_type fp toml s n ≡ ok t) ↔ (s ≡ to_string t)
  unfolding parse_backend_type to_string equal
  parse_backend_type_iff s n vllm = (
    λ h. ground (
      arith,
      equal_iff s (codes "vllm"),
      equal_iff s (codes "llamacpp"),
      equal_iff s (codes "ollama"),
    ),
    λ e. rw e refl,
  )
  parse_backend_type_iff s n llamacpp = (
    λ h. ground (
      arith,
      equal_iff s (codes "vllm"),
      equal_iff s (codes "llamacpp"),
      equal_iff s (codes "ollama"),
    ),
    λ e. rw e refl,
  )
  parse_backend_type_iff s n ollama = (
    λ h. ground (
      arith,
      equal_iff s (codes "vllm"),
      equal_iff s (codes "llamacpp"),
      equal_iff s (codes "ollama"),
    ),
    λ e. rw e refl,
  )

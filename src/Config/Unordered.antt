-- ===== src/Config/Unordered.antt =====
-- A load threshold that compares with nothing, as the TOML value `nan` gives.
use kvmux.Prelude.{ℕ, ◌≡◌, refl, ap, ◌∙◌, Bool, false, some, List, [], ◌∷◌, Bytes, codes}
use kvmux.Prelude.Double.{Double}
use kvmux.Prelude.Result.{ok}
use kvmux.Config.{Toml, opt_double}
use kvmux.Routing.{Candidate, RouteRequest}
use kvmux.Routing.Hrw.{hrw_rank}
use kvmux.Routing.Affinity.{overloaded, guard_head, place_head, skip_at, order}

guard_head-none :
    (over : ℕ → Bool) (is : List ℕ) → ((i : ℕ) → over i ≡ false) → guard_head over is ≡ 0
unfolding guard_head
guard_head-none over [] h = refl
guard_head-none over (i ∷ is) h = rw (h i) refl

place_head-zero : (is : List ℕ) → place_head is 0 ≡ is
unfolding place_head skip_at
place_head-zero [] = refl
place_head-zero (i ∷ is) = refl

-- The range check of `load_threshold` accepts a value that no comparison holds of, and with such a value
-- the load guard never fires: the order is the ranking, however loaded its head, and no spill is counted.
pub unordered_threshold :
    (fp : Double) (toml : Toml fp) (tbl : Toml.Table toml) (node : Toml.Node toml)
    (v : Double.Value fp) (xxh64 : Bytes → ℕ) (req : RouteRequest) (c : Candidate)
    (cs : List Candidate)
    → toml.get tbl (codes "load_threshold") ≡ some node
    → toml.as_float node ≡ some v
    → ((w : Double.Value fp) → fp.lt v w ≡ false)
    → ((w : Double.Value fp) → fp.lt w v ≡ false)
    → ((x y : Double.Value fp) → fp.le (fp.mul v x) y ≡ false)
    → (opt_double fp toml tbl
          (codes "load_threshold")
          (codes "routing")
          (fp.tenths 8)
          (fp.tenths 0)
          (fp.tenths 10)
        ≡ ok v)
      × ((order fp xxh64 v req (c ∷ cs)).order ≡ hrw_rank xxh64 (xxh64 req.affinity_key) (c ∷ cs))
      × ((order fp xxh64 v req (c ∷ cs)).spills ≡ 0)
unfolding opt_double order overloaded
unordered_threshold fp toml tbl node v xxh64 req c cs there float below above never =
    let none_over : (i : ℕ) → overloaded fp xxh64 v (c ∷ cs) i ≡ false = λ i. never _ _ in
    let rank = hrw_rank xxh64 (xxh64 req.affinity_key) (c ∷ cs) in
    let head = guard_head-none (overloaded fp xxh64 v (c ∷ cs)) rank none_over in
    (
      rw (opt_double, there, float, below (fp.tenths 0), above (fp.tenths 10)) refl,
      ap (place_head rank) head ∙ place_head-zero rank,
      head,
    )

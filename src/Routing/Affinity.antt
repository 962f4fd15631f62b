-- ===== src/Routing/Affinity.antt =====
-- `PrefixAffinity::order` of src/routing/prefix_affinity.cpp, over a hash and the platform's doubles.
pub mod Guard
use kvmux.Prelude.{
  ℕ, zero, suc, Bool, none, some, List, [], ◌∷◌, ◌==◌, if◌then◌else◌, get_elem?, Bytes,
}
use kvmux.Prelude.Double.{Double}
use kvmux.Routing.{Candidate, RouteRequest, RouteOrder}
use kvmux.Routing.Hrw.{hrw_rank}

-- The lambda `load_of`: the first candidate with the index, or an idle backend with one place.
unfoldable pub load_of : List Candidate → ℕ → ℕ × ℕ
load_of [] backend_index = (0, 1)
load_of (c ∷ cs) backend_index =
    if c.backend_index == backend_index
    then (c.active_requests, c.max_in_flight)
    else load_of cs backend_index

-- Where the loop of the load guard stops; `spills` is that number too.
unfoldable pub guard_head : (ℕ → Bool) → List ℕ → ℕ
guard_head overloaded [] = 0
guard_head overloaded (i ∷ is) = if overloaded i then suc (guard_head overloaded is) else 0

-- The last loop: the ranking without the place `head`.
unfoldable pub skip_at : ℕ → List ℕ → List ℕ
skip_at head [] = []
skip_at zero (i ∷ is) = is
skip_at (suc head) (i ∷ is) = i ∷ skip_at head is

-- `rank[head]` in front of the rest, or the ranking as it is when no place is left.
unfoldable pub place_head : List ℕ → ℕ → List ℕ
unfolding skip_at
place_head rank head = elim (get_elem? rank head) [ none ↦ rank | some i ↦ i ∷ skip_at head rank ]

module _ (fp : Double) (xxh64 : Bytes → ℕ) (load_threshold : Double.Value fp) where
  -- `active >= load_threshold_ * cap`
  unfoldable pub overloaded : List Candidate → ℕ → Bool
  overloaded candidates backend_index =
      let (active, cap) = load_of candidates backend_index in
      fp.le (fp.mul load_threshold (fp.of_int cap)) (fp.of_int active)

  unfoldable pub order : RouteRequest → List Candidate → RouteOrder
  order req [] = record { order = []; spills = 0 }
  order req (c ∷ cs) =
      let candidates = c ∷ cs in
      let rank = hrw_rank xxh64 (xxh64 req.affinity_key) candidates in
      let head = guard_head (overloaded candidates) rank in
      record { order = place_head rank head; spills = head }

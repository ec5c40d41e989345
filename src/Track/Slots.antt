-- ===== src/Track/Slots.antt =====
-- The entries of the arrays of indices of the tracking.
use lidar.Prelude.{
  ℕ, zero, suc, ◌<◌, List, [], ◌∷◌, Option, none, ◌≡◌, refl, arith, ◌==◌, if◌then◌else◌, set,
  length, replicate, get_elem?-replicate,
}
use lidar.Track.Matching.{slot}

pub slot-set :
    (mixed : List (Option ℕ)) (j : ℕ) (v : Option ℕ) (i : ℕ)
    → j < length mixed
    → slot (set mixed j v) i ≡ (if i == j then v else slot mixed i)
slot-set [] j v i h = absurd (omega arith)
slot-set (x ∷ mixed) zero v zero h = refl
slot-set (x ∷ mixed) zero v (suc i) h = ground arith
slot-set (x ∷ mixed) (suc j) v zero h = ground arith
slot-set (x ∷ mixed) (suc j) v (suc i) h =
    let rest = slot-set mixed j v i (omega arith) in ground (arith, rest)

-- Nothing stands in an array of -1.
pub slot-replicate : (n i : ℕ) → slot (replicate n none) i ≡ none
slot-replicate n i = let free_ : Option ℕ = none in ground (arith, get_elem?-replicate n i free_)

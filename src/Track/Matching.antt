-- ===== src/Track/Matching.antt =====
-- How `unite` assigns the trackables of a frame to those that are tracked: the pairs that are near, in
-- the order of their distances, and the arrays `currentMap` and `mergedMap`, in which `none` is -1.
use lidar.Prelude.{
  ℕ, suc, ◌+◌, Bool, true, false, not, ◌&&◌, List, [], ◌∷◌, ◌++◌, Option, none, some, ltb,
  if◌then◌else◌, length, get_elem?, set, replicate,
}
use lidar.Track.{Trackable, TrackInfo}

module _ {ℓ} {A : Type ℓ} where
  -- The elements with their indices, from the last one down.
  unfoldable pub down : ℕ → List A → List (ℕ × A)
  down i [] = []
  down i (x ∷ xs) = down (suc i) xs ++ (i, x) ∷ []

module _ {F D : Type 0} (distance : F → F → D) (test : D → Bool) where
  -- The pairs of one trackable with those of a list, if the test admits their distance.
  unfoldable pub pairs_with : ℕ → F → List (ℕ × Trackable F) → List (TrackInfo D)
  pairs_with i x [] = []
  pairs_with i x ((j, y) ∷ ys) =
      let rest = pairs_with i x ys in
      let d = distance x y.place in
      if test d then record { distance = d; current_index = i; merged_index = j } ∷ rest else rest

  unfoldable pub pairs_of : List (ℕ × Trackable F) → List (ℕ × Trackable F) → List (TrackInfo D)
  pairs_of [] ys = []
  pairs_of ((i, x) ∷ xs) ys = pairs_with i x.place ys ++ pairs_of xs ys

-- The beginning of a list of pairs, up to the first one that is not near.
unfoldable pub take_near : {D : Type 0} → (D → Bool) → List (TrackInfo D) → List (TrackInfo D)
take_near near [] = []
take_near near (ti ∷ tis) =
    let rest = take_near near tis in if near ti.distance then ti ∷ rest else []

-- An entry of a map of indices.
abbrev pub slot : List (Option ℕ) → ℕ → Option ℕ
slot m i = elim (get_elem? m i) [ none ↦ none | some v ↦ v ]

abbrev pub is_free : Option ℕ → Bool
is_free none = true
is_free (some v) = false

-- `currentMap` and `mergedMap`
pub record Maps : Type 0 where
  pub current_map : List (Option ℕ)
  pub merged_map : List (Option ℕ)

unfoldable pub no_maps : ℕ → ℕ → Maps
no_maps currents merged = record {
  current_map = replicate (currents + 1) none;
  merged_map = replicate (merged + 1) none;
}

-- A pair is assigned, if neither of the two is.
unfoldable pub assign_pair : {D : Type 0} → TrackInfo D → Maps → Maps
assign_pair ti m =
    if is_free (slot m.current_map ti.current_index) && is_free (slot m.merged_map ti.merged_index)
    then record {
      current_map = set m.current_map ti.current_index (some ti.merged_index);
      merged_map = set m.merged_map ti.merged_index (some ti.current_index);
    }
    else m

unfoldable pub assign_all : {D : Type 0} → List (TrackInfo D) → Maps → Maps
assign_all [] m = m
assign_all (ti ∷ tis) m = assign_all tis (assign_pair ti m)

-- Is the first one older, and activated where the second is not?
abbrev pub takes_over : {F : Type 0} → Option (Trackable F) → Option (Trackable F) → Bool
takes_over none b = false
takes_over (some a) none = false
takes_over (some a) (some b) =
    not b.is_activated && (a.is_activated && ltb a.first_time b.first_time)

-- What comes of the writes of a trackable that takes the place of another one: the maps; or a read beyond
-- `currentMap`, or a write in front of `mergedMap` or beyond it.
pub data Swapped : Type 0 where
  written : Maps → Swapped
  read_beyond write_before write_beyond : Swapped

-- The writes, of which the last is at the index that `currentMap` has for the merged trackable.
unfoldable pub swap_pair : ℕ → ℕ → ℕ → Maps → Swapped
swap_pair current merged old m = elim (get_elem? m.current_map merged) [
  | none ↦ read_beyond
  | some none ↦ write_before
  | some (some index) ↦
      if ltb index (length m.merged_map)
      then written (record {
        current_map = set (set m.current_map current (some merged)) old none;
        merged_map = set m.merged_map index (some current);
      })
      else write_beyond
]

-- The maps, if no array is left.
abbrev pub maps_after : Swapped → Option Maps
maps_after (written m) = some m
maps_after read_beyond = none
maps_after write_before = none
maps_after write_beyond = none

-- A round of the loop that looks for older trackables.
unfoldable pub take_over : {F D : Type 0} → List (Trackable F) → TrackInfo D → Maps → Option Maps
take_over current ti m = elim (slot m.merged_map ti.merged_index) [
  | none ↦ some m
  | some old ↦
      if is_free (slot m.current_map ti.current_index)
        && takes_over (get_elem? current ti.current_index) (get_elem? current old)
      then maps_after (swap_pair ti.current_index ti.merged_index old m)
      else some m
]

unfoldable pub take_over_all :
    {F D : Type 0} → List (Trackable F) → List (TrackInfo D) → Maps → Option Maps
take_over_all current [] m = some m
take_over_all current (ti ∷ tis) m = elim (take_over current ti m) [
  | none ↦ none
  | some next ↦ take_over_all current tis next
]

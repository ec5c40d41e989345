-- ===== src/Track/TakeOver.antt =====
-- An older trackable that takes the place of one that is not activated: the writes to the two maps.
use lidar.Prelude.{
  subst, sym, ℕ, zero, suc, ◌<◌, true, List, [], ◌∷◌, Option, none, some, ◌≡◌, refl, ◌∙◌, inl, inr,
  ◌↔◌, arith, if◌then◌else◌, ◌==◌, ltb, Bool-cases, Option-cases, get_elem?, length, set,
  length-set,
}
use lidar.Track.Matching.{slot, Maps, written, read_beyond, write_before, swap_pair}
use lidar.Track.Slots.{slot-set}
use lidar.Track.Stable.{Agree}

slot_below : (m : List (Option ℕ)) (i j : ℕ) → slot m i ≡ some j → i < length m
slot_below [] i j e = ground (arith, e)
slot_below (x ∷ m) zero j e = omega arith
slot_below (x ∷ m) (suc i) j e = let rest = slot_below m i j e in omega arith

slot_there : (m : List (Option ℕ)) (i j : ℕ) → slot m i ≡ some j → get_elem? m i ≡ some (some j)
slot_there m i j e = elim (Option-cases (get_elem? m i)) [
  | inl out ↦ ground (arith, e, out)
  | inr (v, there) ↦ ground (arith, e, there)
]

-- The maps after the writes.
abbrev swapped : ℕ → ℕ → ℕ → ℕ → Maps → Maps
swapped current merged old index m = record {
  current_map = set (set m.current_map current (some merged)) old none;
  merged_map = set m.merged_map index (some current);
}

module _ (current merged old index : ℕ) (m : Maps) (agree : Agree m)
    (taken : slot m.merged_map merged ≡ some old) (free_ : slot m.current_map current ≡ none)
    (short : current < length m.current_map) (there : slot m.current_map merged ≡ some index) where
  current_slot :
      (i : ℕ)
      → slot (swapped current merged old index m).current_map i
        ≡ (if i == old then none else if i == current then some merged else slot m.current_map i)
  current_slot i =
      let assigned = (agree old merged).1 taken in
      let below = slot_below m.current_map old merged assigned in
      let one = slot-set m.current_map current (some merged) i short in
      let size = length-set m.current_map current (some merged) in
      slot-set (set m.current_map current (some merged)) old none i (omega arith) ∙ rw (one) refl

  merged_slot :
      (j : ℕ)
      → slot (swapped current merged old index m).merged_map j
        ≡ (if j == index then some current else slot m.merged_map j)
  merged_slot j =
      slot-set m.merged_map index (some current) j
        (slot_below m.merged_map index merged ((agree merged index).0 there))

  swap_pair_writes : swap_pair current merged old m ≡ written (swapped current merged old index m)
  unfolding swap_pair
  swap_pair_writes =
      let below = slot_below m.merged_map index merged ((agree merged index).0 there) in
      let here = slot_there m.current_map merged index there in
      let test : ltb index (length m.merged_map) ≡ true = ground (arith, below) in
      rw (swap_pair, here, test) refl

  -- The maps are inverse afterwards only if the entry that is read is the right one.
  swapped-Agree→ : Agree (swapped current merged old index m) → index ≡ merged
  swapped-Agree→ after =
      let assigned = (agree old merged).1 taken in
      let here = current_slot old in
      let there' = merged_slot merged in
      elim (Bool-cases (merged == index)) [
        | inl y ↦ ground (arith, y)
        | inr n ↦ let back = (after old merged).1 in ground (arith, here, there', n, back, taken)
      ]

  swapped-Agree← : index ≡ merged → Agree (swapped current merged old index m)
  swapped-Agree← e i j =
      let assigned = (agree old merged).1 taken in
      let same = (agree merged index).0 there in
      let one = current_slot i in
      let two = merged_slot j in
      let (to, from_) = agree i j in
      (
        λ h. ground (arith, e, same, taken, one, two, to, h, assigned),
        λ h. ground (arith, e, same, taken, one, two, from_, h, assigned, free_),
      )

-- What taking over comes to, with the index that is read of `currentMap` for the merged trackable.
abbrev pub Outcome : ℕ → ℕ → ℕ → Maps → Option (Option ℕ) → Type 0
Outcome current merged old m none = swap_pair current merged old m ≡ read_beyond
Outcome current merged old m (some none) = swap_pair current merged old m ≡ write_before
Outcome current merged old m (some (some index)) =
    (after : Maps) × (swap_pair current merged old m ≡ written after)
    × (Agree after ↔ (index ≡ merged))

-- If the two maps are inverse, and a trackable that is not assigned takes the place of another one, then
-- `currentMap` is read beyond its end if the index of the merged trackable is not below its length;
-- else, if it has -1 there, the last write is in front of `mergedMap`; else all writes are within the
-- arrays, and the maps are inverse afterwards exactly if it has that same index there.
pub swap_pair_lem :
    (current merged old : ℕ) (m : Maps)
    → Agree m
    → slot m.merged_map merged ≡ some old
    → slot m.current_map current ≡ none
    → current < length m.current_map
    → Outcome current merged old m (get_elem? m.current_map merged)
unfolding swap_pair
swap_pair_lem current merged old m agree taken free_ short =
    let P : Option (Option ℕ) → Type 0 = Outcome current merged old m in
    elim (Option-cases (get_elem? m.current_map merged)) [
      | inl gone ↦ subst P (sym gone) (rw (swap_pair, gone) refl)
      | inr (none, there) ↦ subst P (sym there) (rw (swap_pair, there) refl)
      | inr (some index, there) ↦
          let here : slot m.current_map merged ≡ some index = ground (arith, there) in
          subst P (sym there) (
            swapped current merged old index m,
            swap_pair_writes current merged old index m agree taken free_ short here,
            (
              swapped-Agree→ current merged old index m agree taken free_ short here,
              swapped-Agree← current merged old index m agree taken free_ short here,
            ),
          )
    ]

-- ===== src/Track/Stable.antt =====
-- The assignment of `unite`: which pairs are assigned, and why the others are not.
use lidar.Prelude.{
  ℕ, ◌+◌, ◌<◌, Bool, true, false, ◌&&◌, List, [], ◌∷◌, ◌++◌, Option, none, some, ◌≡◌, refl, ap, sym,
  subst, ◌∙◌, inl, inr, ◌⊎◌, arith, if◌then◌else◌, ◌==◌, ltb, Bool-cases, length, length-replicate,
  length-set,
}
use lidar.Track.{TrackInfo}
use lidar.Track.Matching.{slot, is_free, Maps, no_maps, assign_pair, assign_all}
use lidar.Track.Slots.{slot-set, slot-replicate}

-- The indices of pairs are below the lengths of arrays.
unfoldable pub fit : {D : Type 0} → ℕ → ℕ → List (TrackInfo D) → Bool
fit n k [] = true
fit n k (ti ∷ tis) = ltb ti.current_index n && (ltb ti.merged_index k && fit n k tis)

-- The two maps are inverse to each other.
abbrev pub Agree : Maps → Type 0
Agree m =
    (i j : ℕ)
    → (slot m.current_map i ≡ some j → slot m.merged_map j ≡ some i)
      × (slot m.merged_map j ≡ some i → slot m.current_map i ≡ some j)

pub length-no_maps :
    (n k : ℕ)
    → (length (no_maps n k).current_map ≡ n + 1) × (length (no_maps n k).merged_map ≡ k + 1)
unfolding no_maps
length-no_maps n k =
    let free_ : Option ℕ = none in (length-replicate (n + 1) free_, length-replicate (k + 1) free_)

pub no_maps_empty :
    (n k i : ℕ)
    → (slot (no_maps n k).current_map i ≡ none) × (slot (no_maps n k).merged_map i ≡ none)
unfolding no_maps
no_maps_empty n k i = (slot-replicate (n + 1) i, slot-replicate (k + 1) i)

pub no_maps-Agree : (n k : ℕ) → Agree (no_maps n k)
no_maps-Agree n k i j =
    let one = (no_maps_empty n k i).0 in
    let two = (no_maps_empty n k j).1 in (λ e. ground (arith, e, one), λ e. ground (arith, e, two))

module _ {D : Type 0} where
  -- The arrays after a pair that can be assigned.
  pub assign_pair_slots :
      (ti : TrackInfo D) (m : Maps) (i : ℕ)
      → ti.current_index < length m.current_map
      → ti.merged_index < length m.merged_map
      → is_free (slot m.current_map ti.current_index) && is_free (slot m.merged_map ti.merged_index)
        ≡ true
      → (slot (assign_pair ti m).current_map i
          ≡ (if i == ti.current_index then some ti.merged_index else slot m.current_map i))
        × (slot (assign_pair ti m).merged_map i
            ≡ (if i == ti.merged_index then some ti.current_index else slot m.merged_map i))
  unfolding assign_pair
  assign_pair_slots ti m i h h' free_ = (
    rw (free_) (slot-set m.current_map ti.current_index (some ti.merged_index) i h),
    rw (free_) (slot-set m.merged_map ti.merged_index (some ti.current_index) i h'),
  )

  assign_pair_same :
      (ti : TrackInfo D) (m : Maps)
      → is_free (slot m.current_map ti.current_index) && is_free (slot m.merged_map ti.merged_index)
        ≡ false
      → assign_pair ti m ≡ m
  unfolding assign_pair
  assign_pair_same ti m h = rw (h) refl

  assign_pair-Agree :
      (ti : TrackInfo D) (m : Maps)
      → ti.current_index < length m.current_map
      → ti.merged_index < length m.merged_map
      → Agree m
      → Agree (assign_pair ti m)
  assign_pair-Agree ti m h h' agree =
      elim (Bool-cases (
        is_free (slot m.current_map ti.current_index)
        && is_free (slot m.merged_map ti.merged_index))) [
          | inr taken ↦ subst Agree (sym (assign_pair_same ti m taken)) agree
          | inl free_ ↦ λ i j.
              let (one, _) = assign_pair_slots ti m i h h' free_ in
              let (_, two) = assign_pair_slots ti m j h h' free_ in
              let (there, back) = agree i j in
              (
                λ e. ground (arith, e, one, two, there, back, free_),
                λ e. ground (arith, e, one, two, there, back, free_),
              )
        ]

  -- An entry that is there stays.
  assign_pair_keeps :
      (ti : TrackInfo D) (m : Maps) (i j : ℕ)
      → ti.current_index < length m.current_map
      → ti.merged_index < length m.merged_map
      → slot m.current_map i ≡ some j
      → slot (assign_pair ti m).current_map i ≡ some j
  assign_pair_keeps ti m i j h h' e =
      elim (Bool-cases (
        is_free (slot m.current_map ti.current_index)
        && is_free (slot m.merged_map ti.merged_index))) [
          | inr taken ↦
              subst (λ x. slot x.current_map i ≡ some j) (sym (assign_pair_same ti m taken)) e
          | inl free_ ↦
              let (one, _) = assign_pair_slots ti m i h h' free_ in ground (arith, e, one, free_)
        ]

  -- An entry is there before, or it is the pair.
  assign_pair_from :
      (ti : TrackInfo D) (m : Maps) (i j : ℕ)
      → ti.current_index < length m.current_map
      → ti.merged_index < length m.merged_map
      → slot (assign_pair ti m).current_map i ≡ some j
      → (slot m.current_map i ≡ some j) ⊎ ((ti.current_index ≡ i) × (ti.merged_index ≡ j))
  assign_pair_from ti m i j h h' e =
      elim (Bool-cases (
        is_free (slot m.current_map ti.current_index)
        && is_free (slot m.merged_map ti.merged_index))) [
          | inr taken ↦
              inl (subst (λ x. slot x.current_map i ≡ some j) (assign_pair_same ti m taken) e)
          | inl free_ ↦
              let (one, _) = assign_pair_slots ti m i h h' free_ in
              elim (Bool-cases (i == ti.current_index)) [
                | inl y ↦ inr (ground (arith, y), ground (arith, e, one, y))
                | inr n ↦ inl (ground (arith, e, one, n))
              ]
        ]

  pub length-assign_pair :
      (ti : TrackInfo D) (m : Maps)
      → (length (assign_pair ti m).current_map ≡ length m.current_map)
        × (length (assign_pair ti m).merged_map ≡ length m.merged_map)
  unfolding assign_pair
  length-assign_pair ti m = (
    ground (arith, length-set m.current_map ti.current_index (some ti.merged_index)),
    ground (arith, length-set m.merged_map ti.merged_index (some ti.current_index)),
  )

  -- What is kept by the pairs that follow.
  abbrev pub Later : List (TrackInfo D) → Maps → Maps → Type 0
  Later tis m r =
      (Agree m → Agree r)
      × ((i j : ℕ) → slot m.current_map i ≡ some j → slot r.current_map i ≡ some j)
      × ((i j : ℕ)
          → slot r.current_map i ≡ some j
          → (slot m.current_map i ≡ some j)
            ⊎ ((earlier : List (TrackInfo D)) × (tj : TrackInfo D) × (later : List (TrackInfo D))
                × (tis ≡ earlier ++ tj ∷ later)
                × (tj.current_index ≡ i)
                × (tj.merged_index ≡ j)))
      × (length r.current_map ≡ length m.current_map)
      × (length r.merged_map ≡ length m.merged_map)

  pub assign_all-Later :
      (tis : List (TrackInfo D)) (m : Maps)
      → fit (length m.current_map) (length m.merged_map) tis ≡ true
      → Later tis m (assign_all tis m)
  unfolding assign_all fit
  assign_all-Later [] m h = (λ a. a, λ i j e. e, λ i j e. inl e, refl, refl)
  assign_all-Later (ti ∷ tis) m h =
      let next = assign_pair ti m in
      let (size, size') = length-assign_pair ti m in
      let below : ti.current_index < length m.current_map = ground (arith, h) in
      let below' : ti.merged_index < length m.merged_map = ground (arith, h) in
      let rest : fit (length m.current_map) (length m.merged_map) tis ≡ true = ground (arith, h) in
      let (agree, keep, from_, long, long') = assign_all-Later tis next (rw (size, size') rest) in
      (
        λ a. agree (assign_pair-Agree ti m below below' a),
        λ i j e. keep i j (assign_pair_keeps ti m i j below below' e),
        λ i j e. elim (from_ i j e) [
          | inl here ↦ elim (assign_pair_from ti m i j below below' here) [
            | inl before ↦ inl before
            | inr (same, same') ↦ inr ([], ti, tis, refl, same, same')
          ]
          | inr (earlier, tj, later, split, same, same') ↦
              inr (ti ∷ earlier, tj, later, ap (λ x. ti ∷ x) split, same, same')
        ],
        long ∙ size,
        long' ∙ size',
      )

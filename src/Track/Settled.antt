-- ===== src/Track/Settled.antt =====
-- The assignment of `unite` takes every pair, unless a nearer one stands in its way.
use lidar.Prelude.{
  ℕ, ◌+◌, ◌<◌, true, ◌&&◌, List, [], ◌∷◌, ◌++◌, some, ◌≡◌, refl, sym, subst, ◌∙◌, inl, inr, ◌⊎◌,
  arith, Option-cases, length,
}
use lidar.Track.{TrackInfo}
use lidar.Track.Matching.{slot, is_free, Maps, no_maps, assign_pair, assign_all}
use lidar.Track.Stable.{
  fit, Agree, assign_all-Later, length-no_maps, no_maps_empty, no_maps-Agree, assign_pair_slots,
  length-assign_pair,
}

module _ {D : Type 0} where
  assign_all-append :
      (xs ys : List (TrackInfo D)) (m : Maps)
      → assign_all (xs ++ ys) m ≡ assign_all ys (assign_all xs m)
  unfolding assign_all
  assign_all-append [] ys m = refl
  assign_all-append (x ∷ xs) ys m = assign_all-append xs ys (assign_pair x m)

  fit-append :
      (n k : ℕ) (xs ys : List (TrackInfo D))
      → fit n k (xs ++ ys) ≡ true
      → (fit n k xs ≡ true) × (fit n k ys ≡ true)
  unfolding fit
  fit-append n k [] ys h = (refl, h)
  fit-append n k (x ∷ xs) ys h =
      let (one, two) = fit-append n k xs ys (ground (arith, h)) in (ground (arith, h, one), two)

  -- A pair that can be assigned is assigned, and stays.
  assigned_now :
      (ti : TrackInfo D) (after : List (TrackInfo D)) (m : Maps)
      → ti.current_index < length m.current_map
      → ti.merged_index < length m.merged_map
      → is_free (slot m.current_map ti.current_index) && is_free (slot m.merged_map ti.merged_index)
        ≡ true
      → fit (length m.current_map) (length m.merged_map) after ≡ true
      → slot (assign_all (ti ∷ after) m).current_map ti.current_index ≡ some ti.merged_index
  unfolding assign_all
  assigned_now ti after m h h' free_ fits =
      let (one, _) = assign_pair_slots ti m ti.current_index h h' free_ in
      let (size, size') = length-assign_pair ti m in
      let (_, keep, _, _, _) = assign_all-Later after (assign_pair ti m) (rw (size, size') fits) in
      keep ti.current_index ti.merged_index (ground (arith, one))

  -- A pair is assigned, or one of its two indices is taken by a pair before it that is assigned.
  abbrev pub IsSettled : List (TrackInfo D) → TrackInfo D → Maps → Type 0
  IsSettled before ti r =
      (slot r.current_map ti.current_index ≡ some ti.merged_index)
      ⊎ ((earlier : List (TrackInfo D)) × (tj : TrackInfo D) × (later : List (TrackInfo D))
          × (before ≡ earlier ++ tj ∷ later)
          × (slot r.current_map tj.current_index ≡ some tj.merged_index)
          × ((tj.current_index ≡ ti.current_index) ⊎ (tj.merged_index ≡ ti.merged_index)))

  -- After the assignment of pairs in an order, a pair of them is assigned, or a pair before it is assigned
  -- that has one of its two trackables; and the two maps are inverse to each other.
  pub assign_all-IsSettled :
      (n k : ℕ) (before : List (TrackInfo D)) (ti : TrackInfo D) (after : List (TrackInfo D))
      → fit (n + 1) (k + 1) (before ++ ti ∷ after) ≡ true
      → let r = assign_all (before ++ ti ∷ after) (no_maps n k) in IsSettled before ti r × Agree r
  unfolding fit
  assign_all-IsSettled n k before ti after h =
      let (fit1, fit2) = fit-append (n + 1) (k + 1) before (ti ∷ after) h in
      let start = no_maps n k in
      let m = assign_all before start in
      let (len, len') = length-no_maps n k in
      let (agree, keep, from_, size, size') = assign_all-Later before start (rw (len, len') fit1) in
      let both = size ∙ len in
      let both' = size' ∙ len' in
      let below : ti.current_index < length m.current_map = ground (arith, fit2, both) in
      let below' : ti.merged_index < length m.merged_map = ground (arith, fit2, both') in
      let r = assign_all (ti ∷ after) m in
      let fits : fit (length m.current_map) (length m.merged_map) (ti ∷ after) ≡ true =
        subst (λ x. fit x (length m.merged_map) (ti ∷ after) ≡ true) (sym both)
          (subst (λ y. fit (n + 1) y (ti ∷ after) ≡ true) (sym both') fit2) in
      let (agree', keep', _, _, _) = assign_all-Later (ti ∷ after) m fits in
      let whole = agree (no_maps-Agree n k) in
      let taken : (i j : ℕ)
          → slot m.current_map i ≡ some j
          → (i ≡ ti.current_index) ⊎ (j ≡ ti.merged_index)
          → IsSettled before ti r =
        λ i j e which. elim (from_ i j e) [
          | inl never ↦ let out = (no_maps_empty n k i).0 in ground (arith, never, out)
          | inr (earlier, tj, later, split, same, same') ↦ inr (
            earlier,
            tj,
            later,
            split,
            keep' tj.current_index tj.merged_index (ground (arith, e, same, same')),
            elim which [ inl w ↦ inl (same ∙ w) | inr w ↦ inr (same' ∙ w) ],
          )
        ] in
      let settled : IsSettled before ti r =
        elim (Option-cases (slot m.current_map ti.current_index)) [
          | inr (j, here) ↦ taken ti.current_index j here (inl refl)
          | inl out ↦ elim (Option-cases (slot m.merged_map ti.merged_index)) [
            | inr (i, there) ↦
                taken i ti.merged_index ((whole i ti.merged_index).1 there) (inr refl)
            | inl out' ↦
                let free_ : is_free (slot m.current_map ti.current_index)
                      && is_free (slot m.merged_map ti.merged_index)
                    ≡ true =
                  ground (arith, out, out') in
                inl (assigned_now ti after m below below' free_ (ground (arith, fits)))
          ]
        ] in
      subst (λ x. IsSettled before ti x × Agree x)
        (sym (assign_all-append before (ti ∷ after) start)) (settled, agree' whole)

  -- The two maps are inverse to each other.
  pub assign_all-Agree :
      (n k : ℕ) (tis : List (TrackInfo D))
      → fit (n + 1) (k + 1) tis ≡ true
      → Agree (assign_all tis (no_maps n k))
  assign_all-Agree n k tis fits =
      let (len, len') = length-no_maps n k in
      let (agree, _, _, _, _) = assign_all-Later tis (no_maps n k) (rw (len, len') fits) in
      agree (no_maps-Agree n k)

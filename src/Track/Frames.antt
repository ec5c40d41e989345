-- ===== src/Track/Frames.antt =====
-- A frame of the tracking in which none takes the place of another one.
use lidar.Prelude.{
  ℕ, zero, suc, ◌+◌, ◌-◌, ◌<◌, ◌≤◌, ◌^◌, ◌%◌, Bool, true, false, not, ◌&&◌, List, [], ◌∷◌, ◌++◌,
  some, ◌≡◌, refl, inl, inr, arith, if◌then◌else◌, ltb, Bool-cases, Option-cases, get_elem?, length,
  map,
}
use lidar.Observer.Objects.{minus64}
use lidar.Track.{Trackable, TrackInfo, Space, cleanup_one}
use lidar.Track.Matching.{
  down, pairs_with, pairs_of, take_near, slot, Maps, no_maps, assign_all, takes_over, take_over,
  take_over_all,
}
use lidar.Track.Merge.{merge_sub_stages}
use lidar.Track.SingleStage.{merge_in_single_stage_total}
use lidar.Track.Stable.{fit, Agree}
use lidar.Track.Settled.{assign_all-Agree}
use lidar.Track.Steps.{keep_shown}
use lidar.Track.Unite.{MultiStage, merged_of, near_pairs, maps_of, track, unite}

-- The indices of a list are below a number.
unfoldable below {ℓ} : {A : Type ℓ} → ℕ → List (ℕ × A) → Bool
below n [] = true
below n ((i, x) ∷ xs) = ltb i n && below n xs

module _ {ℓ} {A : Type ℓ} where
  below-append :
      (n : ℕ) (xs ys : List (ℕ × A))
      → below n xs ≡ true
      → below n ys ≡ true
      → below n (xs ++ ys) ≡ true
  unfolding below
  below-append n [] ys h h' = h'
  below-append n ((i, x) ∷ xs) ys h h' =
      let rest = below-append n xs ys (ground (arith, h)) h' in ground (arith, h, rest)

  below-down : (n i : ℕ) (xs : List A) → i + length xs ≤ n → below n (down i xs) ≡ true
  unfolding below down
  below-down n i [] h = refl
  below-down n i (x ∷ xs) h =
      below-append n (down (suc i) xs) ((i, x) ∷ []) (below-down n (suc i) xs (omega arith))
        (ground (arith, h))

module _ {D : Type 0} where
  fit_both :
      (n k : ℕ) (xs ys : List (TrackInfo D))
      → fit n k xs ≡ true
      → fit n k ys ≡ true
      → fit n k (xs ++ ys) ≡ true
  unfolding fit
  fit_both n k [] ys h h' = h'
  fit_both n k (x ∷ xs) ys h h' =
      let rest = fit_both n k xs ys (ground (arith, h)) h' in ground (arith, h, rest)

  fit-take_near :
      (near : D → Bool) (n k : ℕ) (tis : List (TrackInfo D))
      → fit n k tis ≡ true
      → fit n k (take_near near tis) ≡ true
  unfolding fit take_near
  fit-take_near near n k [] h = refl
  fit-take_near near n k (ti ∷ tis) h =
      let rest = fit-take_near near n k tis (ground (arith, h)) in ground (arith, h, rest)

module _ {F D : Type 0} (distance : F → F → D) (test : D → Bool) where
  fit-pairs_with :
      (n k i : ℕ) (x : F) (ys : List (ℕ × Trackable F))
      → i < n
      → below k ys ≡ true
      → fit n k (pairs_with distance test i x ys) ≡ true
  unfolding fit pairs_with below
  fit-pairs_with n k i x [] h h' = refl
  fit-pairs_with n k i x ((j, y) ∷ ys) h h' =
      let rest = fit-pairs_with n k i x ys h (ground (arith, h')) in ground (arith, h, h', rest)

  fit-pairs_of :
      (n k : ℕ) (xs ys : List (ℕ × Trackable F))
      → below n xs ≡ true
      → below k ys ≡ true
      → fit n k (pairs_of distance test xs ys) ≡ true
  unfolding fit pairs_of below
  fit-pairs_of n k [] ys h h' = refl
  fit-pairs_of n k ((i, x) ∷ xs) ys h h' =
      fit_both n k (pairs_with distance test i x.place ys) (pairs_of distance test xs ys)
        (fit-pairs_with n k i x.place ys (ground (arith, h)) h')
        (fit-pairs_of n k xs ys (ground (arith, h)) h')

module _ {F : Type 0} where
  -- Are all activated, or none?
  unfoldable pub alike : Bool → List (Trackable F) → Bool
  alike b [] = true
  alike b (t ∷ ts) = (if b then t.is_activated else not t.is_activated) && alike b ts

  alike_at :
      (b : Bool) (ts : List (Trackable F)) (i : ℕ) (t : Trackable F)
      → alike b ts ≡ true
      → get_elem? ts i ≡ some t
      → t.is_activated ≡ b
  unfolding alike
  alike_at b [] i t h e = ground (arith, e)
  alike_at true (x ∷ ts) zero t h e = ground (arith, e, h)
  alike_at false (x ∷ ts) zero t h e = ground (arith, e, h)
  alike_at b (x ∷ ts) (suc i) t h e = alike_at b ts i t (ground (arith, h)) e

  -- None is activated where another one is not.
  takes_over_not :
      (b : Bool) (ts : List (Trackable F)) (i j : ℕ)
      → alike b ts ≡ true
      → takes_over (get_elem? ts i) (get_elem? ts j) ≡ false
  takes_over_not b ts i j h = elim (Option-cases (get_elem? ts i)) [
    | inl out ↦ rw (out) refl
    | inr (t, there) ↦ elim (Option-cases (get_elem? ts j)) [
      | inl out ↦ rw (there, out) refl
      | inr (u, there') ↦
          let one = alike_at b ts i t h there in
          let two = alike_at b ts j u h there' in rw (there, there') (ground (arith, one, two))
    ]
  ]

  take_over_all_not :
      {D : Type 0} (b : Bool) (ts : List (Trackable F)) (tis : List (TrackInfo D)) (m : Maps)
      → alike b ts ≡ true
      → take_over_all ts tis m ≡ some m
  unfolding take_over_all take_over
  take_over_all_not b ts [] m h = refl
  take_over_all_not b ts (ti ∷ tis) m h =
      let rest = take_over_all_not b ts tis m h in
      elim (Option-cases (slot m.merged_map ti.merged_index)) [
        | inl out ↦ ground (arith, out, rest)
        | inr (old, there) ↦
            let no_one = takes_over_not b ts ti.current_index old h in
            ground (arith, there, no_one, rest)
      ]

module _ {F D : Type 0} (s : Space F D) where
  merged_of_total :
      (m : MultiStage F) → (merged : List (Trackable F)) × (merged_of s m ≡ some merged)
  unfolding merged_of
  merged_of_total m =
      let (all, single) = merge_in_single_stage_total s m.timestamp m.sub_stages in
      elim (Option-cases m.is_started) [
        | inr (false, there) ↦ ([], ground (arith, there))
        | inr (true, there) ↦ elim (Bool-cases s.unite_in_single_stage) [
          | inl one ↦ (all, ground (arith, there, one, single))
          | inr many ↦ (merge_sub_stages s m.timestamp m.sub_stages [], ground (arith, there, many))
        ]
        | inl new ↦ elim (Bool-cases s.unite_in_single_stage) [
          | inl one ↦ (all, ground (arith, new, one, single))
          | inr many ↦ (merge_sub_stages s m.timestamp m.sub_stages [], ground (arith, new, many))
        ]
      ]

  -- Sorting keeps bounds of the indices.
  abbrev pub SortKeepsFit : Type 0
  SortKeepsFit =
      (n k : ℕ) (tis : List (TrackInfo D)) → fit n k tis ≡ true → fit n k (s.sort tis) ≡ true

  near_pairs-fit :
      SortKeepsFit
      → (time_diff : ℕ) (current merged : List (Trackable F))
      → fit (length current + 1) (length merged + 1) (near_pairs s time_diff current merged) ≡ true
  unfolding near_pairs
  near_pairs-fit keeps time_diff current merged =
      let n = length current + 1 in
      let k = length merged + 1 in
      let all =
        pairs_of (s.predicted_distance time_diff) s.can_track (down 0 current) (down 0 merged) in
      fit-take_near s.is_near n k (s.sort all) (
        keeps n k all (
          fit-pairs_of (s.predicted_distance time_diff) s.can_track n k (down 0 current)
            (down 0 merged) (below-down n 0 current (omega arith))
            (below-down k 0 merged (omega arith))))

  -- If all that is tracked is activated, or nothing of it, `unite` gives a stage: no array is left, no
  -- chain is without an end, and the maps of the assignment are inverse to each other.
  pub unite-alike :
      SortKeepsFit
      → (b : Bool) (now : ℕ) (m : MultiStage F) → alike b m.current ≡ true
      → (merged : List (Trackable F)) × (maps : Maps) × (next : MultiStage F) × (merged_of s m
          ≡ some merged)
        × (maps_of s (minus64 now m.timestamp) m.current merged ≡ some maps)
        × (unite s now m ≡ some next)
        × Agree maps
  unfolding unite maps_of
  unite-alike keeps b now m same =
      let time_diff = minus64 now m.timestamp in
      let (merged, e) = merged_of_total m in
      let near = near_pairs s time_diff m.current merged in
      let start = assign_all near (no_maps (length m.current) (length merged)) in
      let fits = near_pairs-fit keeps time_diff m.current merged in
      let quiet : maps_of s time_diff m.current merged ≡ some start =
        take_over_all_not b m.current near start same in
      let (last, tracked, shown) = track s now time_diff m merged start in
      let current = map (cleanup_one s now time_diff) tracked in
      (
        merged,
        start,
        record m {
          current = current;
          latest = keep_shown shown current;
          timestamp = now;
          stage_time = now;
          frame_count = (m.frame_count + 1) % (2 ^ 32 - 1);
          last_id = last;
        },
        e,
        quiet,
        rw (unite, e, quiet) refl,
        assign_all-Agree (length m.current) (length merged) near fits,
      )

-- ===== src/Track/SingleStage.antt =====
-- A round of `mergeSubStagesInSingleStage`, and all of them.
use lidar.Prelude.{
  ℕ, zero, suc, ◌+◌, ◌<◌, true, false, ◌||◌, List, [], ◌∷◌, Option, none, some, ◌≡◌, refl, ap, sym,
  ◌∙◌, inl, inr, ◌⊎◌, arith, if◌then◌else◌, ◌==◌, Bool-cases, Option-cases, get_elem?, length, set,
  replicate, length-replicate, length-set, get_elem?-replicate,
}
use lidar.Track.{Trackable, TrackInfo, Space}
use lidar.Track.Matching.{slot, is_free, down}
use lidar.Track.Merge.{
  update_at, add_sub_stages, find_root, pairs_below, unite_pair, unite_pairs, keep_roots,
  merge_in_single_stage,
}
use lidar.Track.Forest.{HaveEnds, find_root-HaveEnds, set-HaveEnds}

module _ {F D : Type 0} (s : Space F D) (timestamp : ℕ) where
  -- What a trackable does to the one that it is mixed into.
  abbrev pub mixed_with : Trackable F → Trackable F → Trackable F
  mixed_with t m = record m {
    num_weight = m.num_weight + 1;
    place = s.mix_single (m.num_weight + 1) t.num_weight m.place t.place;
  }

  -- One that is not mixed yet is mixed into the end of a chain, another one than itself.
  abbrev pub Mixed : TrackInfo D → List (Trackable F) → List (Option ℕ) → Type 0
  Mixed ti merged mixed =
      (from_ : ℕ) × (into : ℕ) × (root : ℕ) × (t : Trackable F) × (get_elem? merged from_ ≡ some t)
      × (is_free (slot mixed from_) ≡ true)
      × ((root == from_) ≡ false)
      × (find_root s timestamp (length mixed + 1) mixed into ≡ some root)
      × (unite_pair s timestamp ti (merged, mixed)
          ≡ some (update_at root (mixed_with t) merged, set mixed from_ (some root)))

  pub unite_pair_cases :
      (ti : TrackInfo D) (merged : List (Trackable F)) (mixed : List (Option ℕ))
      → (unite_pair s timestamp ti (merged, mixed) ≡ some (merged, mixed))
        ⊎ (Mixed ti merged mixed
            ⊎ ((into : ℕ) × (find_root s timestamp (length mixed + 1) mixed into ≡ none)
                × (unite_pair s timestamp ti (merged, mixed) ≡ none)))
  unfolding unite_pair
  unite_pair_cases ti merged mixed =
      let swap = is_free (slot mixed ti.merged_index) in
      let into : ℕ = if swap then ti.current_index else ti.merged_index in
      let from_ : ℕ = if swap then ti.merged_index else ti.current_index in
      elim (Bool-cases (is_free (slot mixed ti.current_index) || swap)) [
        | inr done ↦ inl (rw (done) refl)
        | inl free_ ↦ elim (Option-cases (find_root s timestamp (length mixed + 1) mixed into)) [
          | inl endless ↦ inr (inr (into, endless, rw (free_, endless) refl))
          | inr (root, found) ↦ elim (Option-cases (get_elem? merged from_)) [
            | inl out ↦ inl (rw (free_, found, out) refl)
            | inr (t, there) ↦ elim (Bool-cases (root == from_)) [
              | inl same ↦ inl (rw (free_, found, there, same) refl)
              | inr other ↦ inr (
                  inl (
                    from_,
                    into,
                    root,
                    t,
                    there,
                    ground (arith, free_),
                    other,
                    found,
                    rw (free_, found, there, other) refl,
                  ))
            ]
          ]
        ]
      ]

  length-update_at :
      (g : Trackable F → Trackable F) (i : ℕ) (ts : List (Trackable F))
      → length (update_at i g ts) ≡ length ts
  unfolding update_at
  length-update_at g i [] = refl
  length-update_at g zero (t ∷ ts) = refl
  length-update_at g (suc i) (t ∷ ts) = ap suc (length-update_at g i ts)

  get_elem?_below :
      (i : ℕ) (ts : List (Trackable F)) (t : Trackable F) → get_elem? ts i ≡ some t → i < length ts
  get_elem?_below i [] t h = ground (arith, h)
  get_elem?_below zero (x ∷ ts) t h = omega arith
  get_elem?_below (suc i) (x ∷ ts) t h = let rest = get_elem?_below i ts t h in omega arith

  -- The chains keep their ends.
  abbrev AreChained : List (Trackable F) × List (Option ℕ) → Type 0
  AreChained (merged, mixed) = HaveEnds s timestamp mixed × (length mixed ≡ length merged)

  unite_pair-AreChained :
      (ti : TrackInfo D) (merged : List (Trackable F)) (mixed : List (Option ℕ))
      → AreChained (merged, mixed)
      → (next : List (Trackable F) × List (Option ℕ)) × (unite_pair s timestamp ti (merged, mixed)
          ≡ some next)
        × AreChained next
  unite_pair-AreChained ti merged mixed (ends, size) = elim (unite_pair_cases ti merged mixed) [
    | inl same ↦ ((merged, mixed), same, (ends, size))
    | inr (inl (from_, into, root, t, there, free_, other, found, e)) ↦
        let below = get_elem?_below from_ merged t there in
        (
          (update_at root (mixed_with t) merged, set mixed from_ (some root)),
          e,
          (
            set-HaveEnds s timestamp mixed from_ root into (length mixed + 1) ends (omega arith)
                free_ other found,
            length-set mixed from_ (some root)
                ∙ size
                ∙ sym (length-update_at (mixed_with t) root merged),
          ),
        )
    | inr (inr (into, endless, lost)) ↦
        let (r, found) = find_root-HaveEnds s timestamp mixed into ends in
        ground (arith, endless, found)
  ]

  unite_pairs_total :
      (tis : List (TrackInfo D)) (state : List (Trackable F) × List (Option ℕ))
      → AreChained state
      → (next : List (Trackable F) × List (Option ℕ)) × (unite_pairs s timestamp tis state
          ≡ some next)
  unfolding unite_pairs
  unite_pairs_total [] state chained = (state, refl)
  unite_pairs_total (ti ∷ tis) (merged, mixed) chained =
      let (next, e, chained') = unite_pair-AreChained ti merged mixed chained in
      let (last, rest) = unite_pairs_total tis next chained' in (last, rw (unite_pairs, e) rest)

  no_chains : (n : ℕ) → HaveEnds s timestamp (replicate n none)
  unfolding find_root
  no_chains n i = let free_ : Option ℕ = none in (i, ground (arith, get_elem?-replicate n i free_))

  -- `mergeSubStagesInSingleStage` ends: each search for the end of a chain of mixed trackables ends after
  -- at most one step more than there are trackables, whatever the stages and their distances are.
  pub merge_in_single_stage_total :
      (stages : List (List (Trackable F)))
      → (merged : List (Trackable F)) × (merge_in_single_stage s timestamp stages ≡ some merged)
  unfolding merge_in_single_stage
  merge_in_single_stage_total stages =
      let all = add_sub_stages s timestamp stages [] in
      let pairs = s.sort (pairs_below s timestamp (down 0 all)) in
      let (next, e) =
        unite_pairs_total pairs (all, replicate (length all) none)
          (no_chains (length all), length-replicate (length all) none) in
      (keep_roots s timestamp next.1 0 next.0, rw (merge_in_single_stage, e) refl)

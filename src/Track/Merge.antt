-- ===== src/Track/Merge.antt =====
-- How the trackables of the stages below are merged into one list.
use lidar.Prelude.{
  ℕ, zero, suc, ◌+◌, Bool, true, false, ◌||◌, List, [], ◌∷◌, ◌++◌, Option, none, some, ◌==◌,
  if◌then◌else◌, length, get_elem?, set, replicate,
}
use lidar.Track.{Trackable, TrackInfo, Space, init}
use lidar.Track.Matching.{down, pairs_of, slot, is_free}

module _ {ℓ} {A : Type ℓ} where
  -- A change of the element at an index, through a pointer to it.
  unfoldable pub update_at : ℕ → (A → A) → List A → List A
  update_at i f [] = []
  update_at zero f (x ∷ xs) = f x ∷ xs
  update_at (suc i) f (x ∷ xs) = x ∷ update_at i f xs

-- Is the entry of an array of Booleans set?
abbrev pub is_used : List Bool → ℕ → Bool
is_used used i = elim (get_elem? used i) [ none ↦ false | some b ↦ b ]

-- `merged`, `mergedUsed` and `subStageUsed` of `mergeStage`
pub record Merging (F : Type 0) : Type 0 where
  pub merged : List (Trackable F)
  pub merged_used : List Bool
  pub sub_stage_used : List Bool

module _ {F D : Type 0} (s : Space F D) (timestamp : ℕ) where
  -- `*newTrackable = trackable`, with `init`, at the end of the list
  unfoldable pub add_new : Trackable F → List (Trackable F) → List (Trackable F)
  add_new t merged = merged ++ init s timestamp t ∷ []

  -- `addStage`
  unfoldable pub add_stage : List (Trackable F) → List (Trackable F) → List (Trackable F)
  add_stage [] merged = merged
  add_stage (t ∷ ts) merged = add_new t (add_stage ts merged)

  -- `mixWith` of a merged trackable with one of the stage
  unfoldable pub mix_merged : Trackable F → Trackable F → Trackable F
  mix_merged t m = record m {
    num_weight = m.num_weight + 1;
    place = s.mix_merged (m.num_weight + 1) m.place t.place;
  }

  -- A pair of `mergeStage`
  unfoldable pub merge_pair : List (Trackable F) → TrackInfo D → Merging F → Merging F
  merge_pair sub_stage ti m = elim (get_elem? sub_stage ti.current_index) [
    | none ↦ m
    | some t ↦
        if is_used m.sub_stage_used ti.current_index || is_used m.merged_used ti.merged_index
        then m
        else record {
          merged = update_at ti.merged_index (mix_merged t) m.merged;
          merged_used = set m.merged_used ti.merged_index true;
          sub_stage_used = set m.sub_stage_used ti.current_index true;
        }
  ]

  unfoldable pub merge_pairs : List (Trackable F) → List (TrackInfo D) → Merging F → Merging F
  merge_pairs sub_stage [] m = m
  merge_pairs sub_stage (ti ∷ tis) m = merge_pairs sub_stage tis (merge_pair sub_stage ti m)

  -- The trackables of the stage that are not used, from the last one down, at the end of the list.
  unfoldable pub add_unused :
      List Bool → ℕ → List (Trackable F) → List (Trackable F) → List (Trackable F)
  add_unused used i [] merged = merged
  add_unused used i (t ∷ ts) merged =
      let rest = add_unused used (suc i) ts merged in
      if is_used used i then rest else add_new t rest

  -- `mergeStage`
  unfoldable pub merge_stage : List (Trackable F) → List (Trackable F) → List (Trackable F)
  merge_stage sub_stage merged =
      let pairs = s.sort (pairs_of s.distance_to s.can_unite (down 0 sub_stage) (down 0 merged)) in
      let start : Merging F = record {
        merged = merged;
        merged_used = replicate (length merged + 1) false;
        sub_stage_used = replicate (length sub_stage + 1) false;
      } in
      let done = merge_pairs sub_stage pairs start in
      add_unused done.sub_stage_used 0 sub_stage done.merged

  -- `addSubStages` and `mergeSubStages`, which begin with the last stage
  unfoldable pub add_sub_stages :
      List (List (Trackable F)) → List (Trackable F) → List (Trackable F)
  add_sub_stages [] merged = merged
  add_sub_stages (stage ∷ stages) merged = add_stage stage (add_sub_stages stages merged)

  unfoldable pub merge_sub_stages :
      List (List (Trackable F)) → List (Trackable F) → List (Trackable F)
  merge_sub_stages [] merged = merged
  merge_sub_stages (stage ∷ stages) merged = merge_stage stage (merge_sub_stages stages merged)

  -- The end of a chain in `mixedIndex`, if it is found in so many rounds.
  unfoldable pub find_root : ℕ → List (Option ℕ) → ℕ → Option ℕ
  find_root zero mixed i = none
  find_root (suc rounds) mixed i = elim (slot mixed i) [
    | none ↦ some i
    | some j ↦ find_root rounds mixed j
  ]

  -- Pairs `d` of a list with itself, each with a smaller second index.
  unfoldable pub pairs_below : List (ℕ × Trackable F) → List (TrackInfo D)
  pairs_below [] = []
  pairs_below (x ∷ xs) =
      let rest = pairs_below xs in pairs_of s.distance_to s.can_unite (x ∷ []) xs ++ rest

  -- A pair in a single stage: a trackable that is not assigned yet is mixed into the end of the
  -- chain of the other one. `none` if a chain has no end.
  unfoldable pub unite_pair :
      TrackInfo D
      → List (Trackable F) × List (Option ℕ)
      → Option (List (Trackable F) × List (Option ℕ))
  unite_pair ti (merged, mixed) =
      let swap = is_free (slot mixed ti.merged_index) in
      let into = if swap then ti.current_index else ti.merged_index in
      let from_ = if swap then ti.merged_index else ti.current_index in
      if is_free (slot mixed ti.current_index) || is_free (slot mixed ti.merged_index)
      then elim (find_root (length mixed + 1) mixed into) [
        | none ↦ none
        | some root ↦ elim (get_elem? merged from_) [
          | none ↦ some (merged, mixed)
          | some t ↦
              if root == from_
              then some (merged, mixed)
              else some (
                update_at root
                    (λ m. record m {
                      num_weight = m.num_weight + 1;
                      place = s.mix_single (m.num_weight + 1) t.num_weight m.place t.place;
                    })
                    merged,
                set mixed from_ (some root),
              )
        ]
      ]
      else some (merged, mixed)

  unfoldable pub unite_pairs :
      List (TrackInfo D)
      → List (Trackable F) × List (Option ℕ)
      → Option (List (Trackable F) × List (Option ℕ))
  unite_pairs [] state = some state
  unite_pairs (ti ∷ tis) state = elim (unite_pair ti state) [
    | none ↦ none
    | some next ↦ unite_pairs tis next
  ]

  -- The trackables that have not been mixed into others.
  unfoldable pub keep_roots : List (Option ℕ) → ℕ → List (Trackable F) → List (Trackable F)
  keep_roots mixed i [] = []
  keep_roots mixed i (t ∷ ts) =
      let rest = keep_roots mixed (suc i) ts in if is_free (slot mixed i) then t ∷ rest else rest

  -- `mergeSubStagesInSingleStage`
  unfoldable pub merge_in_single_stage : List (List (Trackable F)) → Option (List (Trackable F))
  merge_in_single_stage stages =
      let all = add_sub_stages stages [] in
      elim (unite_pairs (s.sort (pairs_below (down 0 all))) (all, replicate (length all) none)) [
        | none ↦ none
        | some (merged, mixed) ↦ some (keep_roots mixed 0 merged)
      ]

-- ===== src/Track/Unite.antt =====
-- `TrackableMultiStage::unite`: one frame of the tracking.
use lidar.Prelude.{
  ℕ, ◌+◌, ◌-◌, ◌%◌, ◌^◌, Bool, true, false, List, [], Option, none, some, if◌then◌else◌, map,
  length,
}
use lidar.Observer.Objects.{minus64}
use lidar.Track.{Trackable, TrackInfo, Space, cleanup_one}
use lidar.Track.Matching.{down, pairs_of, take_near, Maps, no_maps, assign_all, take_over_all}
use lidar.Track.Merge.{merge_sub_stages, merge_in_single_stage}
use lidar.Track.Steps.{
  mix_assigned, move_all, mark_all, add_unassigned, drop_erasable, transfer_active, keep_shown,
  predict_one, smooth_one,
}

-- The state of a `TrackableMultiStage`, and the number that `nextId` gave last. `latest` of a stage
-- below is an element of `sub_stages`.
pub record MultiStage (F : Type 0) : Type 0 where
  pub sub_stages : List (List (Trackable F))
  pub current : List (Trackable F)
  pub latest : List (Trackable F)
  -- `isStarted`, which is -1 before the first start
  pub is_started : Option Bool
  pub timestamp : ℕ
  pub starttime : ℕ
  pub stage_time : ℕ
  pub frame_count : ℕ
  pub last_id : ℕ

module _ {F D : Type 0} (s : Space F D) where
  -- `mergeSubStages` or `mergeSubStagesInSingleStage`, unless the stage is stopped
  unfoldable pub merged_of : MultiStage F → Option (List (Trackable F))
  merged_of m =
      let started : Option (List (Trackable F)) =
        if s.unite_in_single_stage
        then merge_in_single_stage s m.timestamp m.sub_stages
        else some (merge_sub_stages s m.timestamp m.sub_stages []) in
      elim m.is_started [ none ↦ started | some true ↦ started | some false ↦ some [] ]

  -- The pairs of those that are tracked and those of the frame that are near, by their distances.
  unfoldable pub near_pairs : ℕ → List (Trackable F) → List (Trackable F) → List (TrackInfo D)
  near_pairs time_diff current merged = take_near s.is_near (
      s.sort
        (pairs_of (s.predicted_distance time_diff) s.can_track (down 0 current) (down 0 merged)))

  unfoldable pub maps_of : ℕ → List (Trackable F) → List (Trackable F) → Option Maps
  maps_of time_diff current merged =
      let near = near_pairs time_diff current merged in
      take_over_all current near (assign_all near (no_maps (length current) (length merged)))

  -- What is tracked after a frame with these trackables and this assignment, with the number that was
  -- given last and whether each one is shown.
  unfoldable pub track :
      ℕ → ℕ → MultiStage F → List (Trackable F) → Maps → ℕ × List (Trackable F) × List Bool
  track now time_diff m merged maps =
      let predicted : List (Trackable F) = map (predict_one s time_diff) m.current in
      let mixed = mix_assigned s now maps.current_map merged 0 predicted in
      let moved = move_all s now time_diff maps.current_map m.current 0 mixed in
      let marked = mark_all s now time_diff maps.current_map (length moved) (m.last_id, moved) in
      let added = add_unassigned s now maps.merged_map 0 merged marked.1 in
      let kept = drop_erasable s added in
      let smoothed : List (Trackable F) = map (smooth_one s time_diff) kept in
      transfer_active s (length smoothed) now m.starttime time_diff 0 (marked.0, smoothed, [])

  -- `unite`, at a time that is not 0; `none` if an array is left, or a chain has no end.
  unfoldable pub unite : ℕ → MultiStage F → Option (MultiStage F)
  unite now m = elim (merged_of m) [
    | none ↦ none
    | some merged ↦
        let time_diff = minus64 now m.timestamp in
        elim (maps_of time_diff m.current merged) [
          | none ↦ none
          | some maps ↦
              let (last, tracked, shown) = track now time_diff m merged maps in
              let current = map (cleanup_one s now time_diff) tracked in
              some (record m {
                current = current;
                latest = keep_shown shown current;
                timestamp = now;
                stage_time = now;
                frame_count = (m.frame_count + 1) % (2 ^ 32 - 1);
                last_id = last;
              })
        ]
  ]

-- `start`, `stop`, `clear` and `reset`, without the observers
unfoldable pub start_stage : {F : Type 0} → ℕ → MultiStage F → MultiStage F
start_stage now m =
    let started = record m { is_started = some true; starttime = now; last_id = 0 } in
    elim m.is_started [ some true ↦ m | some false ↦ started | none ↦ started ]

unfoldable pub clear_stage : {F : Type 0} → MultiStage F → MultiStage F
clear_stage m = record m { current = [] }

unfoldable pub stop_stage : {F : Type 0} → MultiStage F → MultiStage F
stop_stage m =
    let stopped = record (clear_stage m) { is_started = some false } in
    elim m.is_started [ some false ↦ m | some true ↦ stopped | none ↦ stopped ]

unfoldable pub reset_stage : {F : Type 0} → MultiStage F → MultiStage F
reset_stage m = record (clear_stage m) { sub_stages = map (λ stage. []) m.sub_stages; latest = [] }

-- ===== src/Track/Shown.antt =====
-- What `unite` shows is activated and has an identifier.
use lidar.Prelude.{
  ℕ, ◌+◌, ◌-◌, ◌≤◌, ◌^◌, ◌%◌, Bool, List, [], ◌∷◌, some, ◌≡◌, refl, ◌∙◌, arith, length, map,
}
use lidar.Observer.Objects.{minus64}
use lidar.Track.{Trackable, Space, cleanup_one}
use lidar.Track.Matching.{Maps}
use lidar.Track.Ids.{total, total-map}
use lidar.Track.Weights.{IsOfFlags}
use lidar.Track.Unique.{motion, total-motion}
use lidar.Track.Named.{
  nameless, IsText, mark_all_named, add_unassigned_named, drop_erasable_named, transfer_named,
}
use lidar.Track.Latest.{inactive, wrong, wrong_none, transfer_wrong}
use lidar.Track.Steps.{mark_all, add_unassigned, drop_erasable, keep_shown, smooth_one}
use lidar.Track.Unite.{MultiStage, merged_of, maps_of, track, unite}

nameless-IsOfFlags : {F : Type 0} → IsOfFlags {F = F} nameless
nameless-IsOfFlags t u ids latents flags on = ground (arith, ids, on)

module _ {F D : Type 0} (s : Space F D) (text_ : IsText s.print) where
  smooth_named :
      (time_diff : ℕ) (t : Trackable F) → nameless (smooth_one s time_diff t) ≤ nameless t
  unfolding smooth_one
  smooth_named time_diff t = omega arith

  cleanup_named :
      (now time_diff : ℕ) (t : Trackable F) → nameless (cleanup_one s now time_diff t) ≤ nameless t
  unfolding cleanup_one
  cleanup_named now time_diff t = omega arith

  track_named :
      (now time_diff : ℕ) (m : MultiStage F) (merged : List (Trackable F)) (maps : Maps)
      → total nameless (track s now time_diff m merged maps).1 ≤ total nameless m.current
  unfolding track
  track_named now time_diff m merged maps =
      let moved = motion s (λ t. 0) [] now time_diff m merged maps in
      let start =
        total-motion s (λ t. 0) [] nameless nameless-IsOfFlags now time_diff m merged maps in
      let marked = mark_all s now time_diff maps.current_map (length moved) (m.last_id, moved) in
      let one =
        mark_all_named s text_ now time_diff maps.current_map (length moved) m.last_id moved in
      let added = add_unassigned s now maps.merged_map 0 merged marked.1 in
      let two = add_unassigned_named s text_ now maps.merged_map 0 merged marked.1 in
      let kept = drop_erasable s added in
      let three = drop_erasable_named s text_ added in
      let smoothed = map (smooth_one s time_diff) kept in
      let four = total-map nameless (smooth_one s time_diff) kept (smooth_named time_diff) in
      let five =
        transfer_named s text_ (length smoothed) now m.starttime time_diff 0 marked.0 smoothed [] in
      omega arith

  track-wrong :
      (now time_diff : ℕ) (m : MultiStage F) (merged : List (Trackable F)) (maps : Maps)
      → let r = track s now time_diff m merged maps in wrong r.2 r.1 ≡ 0
  unfolding track
  track-wrong now time_diff m merged maps =
      let moved = motion s (λ t. 0) [] now time_diff m merged maps in
      let marked = mark_all s now time_diff maps.current_map (length moved) (m.last_id, moved) in
      let added = add_unassigned s now maps.merged_map 0 merged marked.1 in
      let smoothed = map (smooth_one s time_diff) (drop_erasable s added) in
      transfer_wrong s (length smoothed) now m.starttime time_diff 0 marked.0 smoothed [] refl
        (wrong_none smoothed)

  keep_shown_le :
      (f : Trackable F → ℕ) (shown : List Bool) (ts : List (Trackable F))
      → total f (keep_shown shown ts) ≤ total f ts
  unfolding keep_shown
  keep_shown_le f shown [] = omega arith
  keep_shown_le f [] (t ∷ ts) = omega arith
  keep_shown_le f (b ∷ shown) (t ∷ ts) = let rest = keep_shown_le f shown ts in ground (arith, rest)

  wrong-cleanup :
      (now time_diff : ℕ) (shown : List Bool) (ts : List (Trackable F))
      → wrong shown (map (cleanup_one s now time_diff) ts) ≡ wrong shown ts
  unfolding keep_shown cleanup_one
  wrong-cleanup now time_diff shown [] = refl
  wrong-cleanup now time_diff [] (t ∷ ts) = refl
  wrong-cleanup now time_diff (b ∷ shown) (t ∷ ts) =
      let rest = wrong-cleanup now time_diff shown ts in ground (arith, rest)

  -- If what is tracked and activated has an identifier, and the arrays of the assignment are not left,
  -- this holds after `unite` too, and everything that it shows is activated and has an identifier.
  pub unite-latest :
      (now : ℕ) (m : MultiStage F) (merged : List (Trackable F)) (maps : Maps)
      → merged_of s m ≡ some merged
      → maps_of s (minus64 now m.timestamp) m.current merged ≡ some maps
      → total nameless m.current ≡ 0
      → (next : MultiStage F) × (unite s now m ≡ some next)
        × (total nameless next.current ≡ 0)
        × (total inactive next.latest ≡ 0)
        × (total nameless next.latest ≡ 0)
  unfolding unite
  unite-latest now m merged maps e e' named =
      let time_diff = minus64 now m.timestamp in
      let one = track_named now time_diff m merged maps in
      let two = track-wrong now time_diff m merged maps in
      let (last, tracked, shown) = track s now time_diff m merged maps in
      let current = map (cleanup_one s now time_diff) tracked in
      let three =
        total-map nameless (cleanup_one s now time_diff) tracked (cleanup_named now time_diff) in
      let four = wrong-cleanup now time_diff shown tracked in
      let five = keep_shown_le nameless shown current in
      (
        record m {
          current = current;
          latest = keep_shown shown current;
          timestamp = now;
          stage_time = now;
          frame_count = (m.frame_count + 1) % (2 ^ 32 - 1);
          last_id = last;
        },
        rw (unite, e, e') refl,
        omega arith,
        four ∙ two,
        omega arith,
      )

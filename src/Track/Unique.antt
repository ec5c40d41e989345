-- ===== src/Track/Unique.antt =====
-- A frame of the tracking keeps the identifiers unique.
use lidar.Prelude.{
  ℕ, zero, suc, ◌+◌, ◌-◌, ◌%◌, ◌^◌, ◌<◌, ◌≤◌, false, List, [], ◌∷◌, some, ◌≡◌, refl, sym, ◌∙◌,
  arith, length, map,
}
use lidar.KeyValue.Map.{Text}
use lidar.Observer.Objects.{minus64}
use lidar.Track.{Trackable, Space, is_empty, cleanup_one}
use lidar.Track.Matching.{Maps}
use lidar.Track.Ids.{total, total-map, held, held_live, held-cleanup_one}
use lidar.Track.Given.{IsRead, IsUnique}
use lidar.Track.Marking.{AreLive, mark_all_lem}
use lidar.Track.Activation.{erased}
use lidar.Track.Transfer.{
  total-add_unassigned, length-add_unassigned, total-drop_erasable, transfer_lem,
}
use lidar.Track.Weights.{
  IsOfIds, IsOfFlags, total-one, total-map_same, total-mix_assigned, total-move_all,
  total-merged_of,
}
use lidar.Track.Steps.{
  mix_assigned, move_all, mark_all, add_unassigned, drop_erasable, keep_shown, predict_one,
  smooth_one,
}
use lidar.Track.Unite.{MultiStage, merged_of, maps_of, track, unite}

module _ {F : Type 0} (k : Text) where
  held-IsOfIds : IsOfIds {F = F} (held k)
  unfolding held
  held-IsOfIds t u ids latents = ground (arith, ids, latents)

  held_live-IsOfFlags : IsOfFlags {F = F} (held_live k)
  unfolding held_live held
  held_live-IsOfFlags t u ids latents flags on = ground (arith, ids, latents, flags)

  erased-IsOfFlags : IsOfFlags {F = F} erased
  erased-IsOfFlags t u ids latents flags on = ground (arith, flags)

  total-ones :
      (stages : List (List (Trackable F))) → total (total (λ t. 1)) stages ≡ total length stages
  total-ones [] = refl
  total-ones (stage ∷ stages) =
      let here = total-one stage in let rest = total-ones stages in omega arith

  -- Where none is about to be erased.
  total-live : (ts : List (Trackable F)) → total (held_live k) ts ≤ total (held k) ts
  unfolding held_live
  total-live [] = omega arith
  total-live (t ∷ ts) = let rest = total-live ts in ground (arith, rest)

  erased-AreLive : (n : ℕ) (ts : List (Trackable F)) → total erased ts ≡ 0 → AreLive n ts
  erased-AreLive n [] h i x l e = ground (arith, e)
  erased-AreLive n (t ∷ ts) h zero x l e = ground (arith, e, h)
  erased-AreLive n (t ∷ ts) h (suc i) x l e = erased-AreLive n ts (omega arith) i x (omega arith) e

module _ {F D : Type 0} (s : Space F D) (parse : Text → ℕ) (k : Text) where
  -- The trackables before the assignment, with the motion.
  abbrev pub motion : ℕ → ℕ → MultiStage F → List (Trackable F) → Maps → List (Trackable F)
  motion now time_diff m merged maps =
      let mixed =
        mix_assigned s now maps.current_map merged 0 (map (predict_one s time_diff) m.current) in
      move_all s now time_diff maps.current_map m.current 0 mixed

  pub total-motion :
      (f : Trackable F → ℕ)
      → IsOfFlags f
      → (now time_diff : ℕ) (m : MultiStage F) (merged : List (Trackable F)) (maps : Maps)
      → total f (motion now time_diff m merged maps) ≡ total f m.current
  unfolding predict_one
  total-motion f flags now time_diff m merged maps =
      let predicted = map (predict_one s time_diff) m.current in
      let mixed = mix_assigned s now maps.current_map merged 0 predicted in
      total-move_all s f flags now time_diff maps.current_map m.current 0 mixed
      ∙ total-mix_assigned s f flags now maps.current_map merged 0 predicted
      ∙ total-map_same f (predict_one s time_diff) m.current
          (λ t. flags (predict_one s time_diff t) t refl refl refl refl)

  smooth_held : (time_diff : ℕ) (t : Trackable F) → held k (smooth_one s time_diff t) ≡ held k t
  unfolding smooth_one held
  smooth_held time_diff t = refl

  smooth_erased : (time_diff : ℕ) (t : Trackable F) → erased (smooth_one s time_diff t) ≡ erased t
  unfolding smooth_one
  smooth_erased time_diff t = refl

  -- What is tracked keeps its identifiers unique: at most one number is given for each trackable in
  -- each of the two loops.
  pub track_lem :
      IsRead s.print parse
      → is_empty k ≡ false
      → (now time_diff : ℕ) (m : MultiStage F) (merged : List (Trackable F)) (maps : Maps)
      → total erased m.current ≡ 0
      → m.last_id + length m.current + length m.current + length merged < 2 ^ 32
      → total (held k) merged ≡ 0
      → IsUnique s parse k m.last_id (total (held k) m.current)
      → let r = track s now time_diff m merged maps in
        IsUnique s parse k r.0 (total (held k) r.1) × (total erased r.1 ≡ 0)
  unfolding track
  track_lem r word now time_diff m merged maps live room nameless unique =
      let moved = motion now time_diff m merged maps in
      let ids = total-motion (held_live k) (held_live-IsOfFlags k) now time_diff m merged maps in
      let flags = total-motion erased (erased-IsOfFlags k) now time_diff m merged maps in
      let count_ = total-motion (λ t. 1) (λ t u a b c d. refl) now time_diff m merged maps in
      let size = sym (total-one moved) ∙ count_ ∙ total-one m.current in
      let fewer = total-live k m.current in
      let marked = mark_all s now time_diff maps.current_map (length moved) (m.last_id, moved) in
      let (unique1, few, long) =
        mark_all_lem s parse k r now time_diff maps.current_map (length moved) m.last_id moved
          (omega arith) (erased-AreLive k (length moved) moved (omega arith)) (omega arith)
          (omega arith) in
      let added = add_unassigned s now maps.merged_map 0 merged marked.1 in
      let more = total-add_unassigned s k now maps.merged_map 0 merged marked.1 in
      let longer = length-add_unassigned s k now maps.merged_map 0 merged marked.1 in
      let kept = drop_erasable s added in
      let (ids2, flags2, size2) = total-drop_erasable s k added in
      let smoothed = map (smooth_one s time_diff) kept in
      let ids3 = total-map_same (held k) (smooth_one s time_diff) kept (smooth_held time_diff) in
      let flags3 = total-map_same erased (smooth_one s time_diff) kept (smooth_erased time_diff) in
      let size3 =
        sym (total-one smoothed)
        ∙ total-map_same (λ t. 1) (smooth_one s time_diff) kept (λ t. refl)
        ∙ total-one kept in
      let (unique4, flags4) =
        transfer_lem s parse k r word (length smoothed) now m.starttime time_diff 0 marked.0
          smoothed [] (omega arith) (omega arith) in
      (unique4, omega arith)

  -- The identifier stands in one place at most, as an id or among the latent ids of a trackable, and
  -- nowhere if its number has not been given; no trackable is about to be erased.
  abbrev pub IsNamed : MultiStage F → Type 0
  IsNamed m = IsUnique s parse k m.last_id (total (held k) m.current) × (total erased m.current ≡ 0)

  cleanup_erased :
      (now time_diff : ℕ) (t : Trackable F) → erased (cleanup_one s now time_diff t) ≡ erased t
  unfolding cleanup_one
  cleanup_erased now time_diff t = refl

  -- `unite` gives a stage in which an identifier that has been given stands in one place at most, and
  -- none that has not been given stands anywhere, if this held before, the trackables of the stages below
  -- have no identifier, the numbers do not run out, and the arrays of the assignment are not left.
  pub unite-IsNamed :
      IsRead s.print parse
      → is_empty k ≡ false
      → (now : ℕ) (m : MultiStage F) (merged : List (Trackable F)) (maps : Maps)
      → merged_of s m ≡ some merged
      → maps_of s (minus64 now m.timestamp) m.current merged ≡ some maps
      → m.last_id + length m.current + length m.current + total length m.sub_stages < 2 ^ 32
      → total (total (held k)) m.sub_stages ≡ 0
      → IsNamed m
      → (next : MultiStage F) × (unite s now m ≡ some next) × IsNamed next
  unfolding unite
  unite-IsNamed r word now m merged maps e e' room nameless (unique, live) =
      let time_diff = minus64 now m.timestamp in
      let new = total-merged_of s (held k) (held-IsOfIds k) m merged e in
      let size = total-merged_of s (λ t. 1) (λ t u a b. refl) m merged e in
      let long = total-one merged in
      let longs = total-ones k m.sub_stages in
      let (unique', live') =
        track_lem r word now time_diff m merged maps live (omega arith) (omega arith) unique in
      let (last, tracked, shown) = track s now time_diff m merged maps in
      let current = map (cleanup_one s now time_diff) tracked in
      let fewer =
        total-map (held k) (cleanup_one s now time_diff) tracked
          (λ t. held-cleanup_one k s now time_diff t) in
      let flags =
        total-map_same erased (cleanup_one s now time_diff) tracked
          (cleanup_erased now time_diff) in
      (
        record m {
          current = current;
          latest = keep_shown shown current;
          timestamp = now;
          stage_time = now;
          frame_count = (m.frame_count + 1) % (2 ^ 32 - 1);
          last_id = last;
        },
        rw (unite, e, e') refl,
        (omega arith, omega arith),
      )

-- ===== src/Track/Tests.antt =====
-- Runs of the tracking on small inputs: places on a line, in whole numbers.
use lidar.Prelude.{
  get_elem?, ℕ, zero, suc, ◌+◌, ◌-◌, ◌^◌, ◌<◌, Bool, true, false, List, [], ◌∷◌, ◌++◌, Option, none,
  some, ◌≡◌, ◌⊎◌, ◌↔◌, refl, arith, ltb, leb, if◌then◌else◌, length, replicate, length-replicate,
}
use lidar.KeyValue.Map.{Text}
use lidar.Track.{Trackable, TrackInfo, Space, init}
use lidar.Track.Matching.{Maps, no_maps, assign_all, swap_pair, slot}
use lidar.Track.Stable.{Agree, fit}
use lidar.Track.Ids.{total}
use lidar.Track.Named.{nameless, IsText}
use lidar.Track.Latest.{inactive}
use lidar.Track.Shown.{unite-latest}
use lidar.Track.Frames.{SortKeepsFit, unite-alike}
use lidar.Observer.Objects.{minus64}
use lidar.Track.Settled.{IsSettled, assign_all-IsSettled}
use lidar.Track.TakeOver.{Outcome, swap_pair_lem}
use lidar.Track.Given.{IsRead}
use lidar.Track.Merge.{merge_sub_stages, merge_in_single_stage}
use lidar.Track.SingleStage.{merge_in_single_stage_total}
use lidar.Track.Unite.{MultiStage, merged_of, near_pairs, maps_of, unite}
use lidar.Track.Unique.{IsNamed, unite-IsNamed}

abbrev gap : ℕ → ℕ → ℕ
gap a b = (a - b) + (b - a)

unfoldable insert : TrackInfo ℕ → List (TrackInfo ℕ) → List (TrackInfo ℕ)
insert ti [] = ti ∷ []
insert ti (tj ∷ tis) =
    let rest = insert ti tis in if leb ti.distance tj.distance then ti ∷ tj ∷ tis else tj ∷ rest

unfoldable sort_pairs : List (TrackInfo ℕ) → List (TrackInfo ℕ)
sort_pairs [] = []
sort_pairs (ti ∷ tis) = insert ti (sort_pairs tis)

abbrev print_ones : ℕ → Text
print_ones n = 48 ∷ replicate n 49

abbrev parse_ones : Text → ℕ
parse_ones t = length t - 1

abbrev line : Bool → Space ℕ ℕ
line single = record {
  predicted_distance = λ time a b. gap a b;
  distance_to = gap;
  can_unite = λ d. leb d 2;
  is_close = λ d. ltb d 2;
  can_track = λ d. leb d 5;
  is_near = λ d. ltb d 5;
  sort = sort_pairs;
  start = λ p. p;
  mix_merged = λ weight a b. b;
  mix_single = λ weight other a b. a;
  predict = λ time p. p;
  mix_tracked = λ a b. b;
  move = λ time assigned unseen last p. p;
  smooth = λ time p. p;
  closer = λ time a b d. if ltb (gap a b) d then some (gap a b) else none;
  keeps_latent = true;
  latent_distance = 10;
  has_moved = λ p. false;
  stay_here = λ p. p;
  has_split = λ p. false;
  is_lost = λ d. leb 1000 d;
  is_inactive = λ d. ltb 300 d;
  is_active = λ d. ltb 500 d;
  latent_life_time = 10000;
  private_timeout = 1000;
  immobile_timeout = 1000;
  unite_in_single_stage = single;
  mask = none;
  print = print_ones;
}

print_ones-IsRead : IsRead print_ones parse_ones
print_ones-IsRead n =
    let tail : Text = replicate n 49 in
    let size : length tail ≡ n = length-replicate n 49 in omega arith

print_ones-IsText : IsText print_ones
unfolding lidar.Track.is_empty
print_ones-IsText n = refl

abbrev seen : ℕ → ℕ → Trackable ℕ
seen place time = record {
  place = place;
  num_weight = 1;
  first_time = time;
  last_time = time;
  first_private_time = 0;
  first_immobile_time = 0;
  is_touched = true;
  is_private = false;
  is_portal = false;
  is_immobile = false;
  is_activated = false;
  erasable = false;
  id = [];
  latent_ids = [];
}

abbrev known : ℕ → ℕ → ℕ → Trackable ℕ
known place time n = record (seen place time) { is_activated = true; id = print_ones n }

-- Two are tracked, of which the one at 10 is lost at 2000; one is seen that is neither of the two, and
-- one at 21.
abbrev two_tracked : MultiStage ℕ
two_tracked = record {
  sub_stages = (seen 21 0 ∷ []) ∷ (seen 40 0 ∷ []) ∷ [];
  current = known 14 900 1 ∷ known 20 1900 2 ∷ [];
  latest = [];
  is_started = some true;
  timestamp = 1950;
  starttime = 5;
  stage_time = 1950;
  frame_count = 7;
  last_id = 2;
}

abbrev merged_two : List (Trackable ℕ)
merged_two = merge_sub_stages (line false) 1950 two_tracked.sub_stages []

abbrev maps_two : Maps
maps_two = record {
  current_map = none ∷ some 1 ∷ none ∷ [];
  merged_map = none ∷ some 1 ∷ none ∷ [];
}

-- What is tracked afterwards: the other one keeps the id of the one that is lost.
abbrev two_after : List (Trackable ℕ)
two_after =
    record (known 21 1900 2) { last_time = 2000; latent_ids = (print_ones 1, 2000) ∷ [] }
    ∷ seen 40 2000
    ∷ []

two_maps : maps_of (line false) 50 two_tracked.current merged_two ≡ some maps_two
unfolding maps_of merge_sub_stages near_pairs lidar.Track.Matching.take_over_all
    lidar.Track.Matching.take_near sort_pairs lidar.Track.Matching.pairs_of
    lidar.Track.Matching.down lidar.Track.Matching.pairs_with lidar.Track.Merge.merge_stage
    lidar.Track.Merge.add_unused lidar.Track.Merge.merge_pairs lidar.Track.Merge.add_new init insert
    lidar.Track.Matching.take_over assign_all lidar.Track.Matching.assign_pair no_maps
two_maps = refl

abbrev tracked_after : Option (MultiStage ℕ) → List (Trackable ℕ)
tracked_after none = []
tracked_after (some m) = m.current

lost_one : tracked_after (unite (line false) 2000 two_tracked) ≡ two_after
unfolding unite merged_of maps_of lidar.Track.Matching.take_over_all near_pairs
    lidar.Track.Matching.take_near sort_pairs lidar.Track.Matching.pairs_of
    lidar.Track.Matching.down lidar.Track.Matching.pairs_with merge_sub_stages
    lidar.Track.Merge.merge_stage lidar.Track.Merge.add_unused lidar.Track.Merge.merge_pairs
    lidar.Track.Merge.add_new init insert lidar.Track.Matching.take_over lidar.Prelude.assign
    lidar.Prelude.below_bytes lidar.Prelude.count lidar.Prelude.emplace lidar.Prelude.erase
    lidar.Prelude.find lidar.Prelude.same_bytes assign_all lidar.Track.Matching.assign_pair no_maps
    swap_pair lidar.Track.Merge.add_stage lidar.Track.Merge.add_sub_stages
    lidar.Track.Merge.find_root lidar.Track.Merge.keep_roots merge_in_single_stage
    lidar.Track.Merge.merge_pair lidar.Track.Merge.mix_merged lidar.Track.Merge.pairs_below
    lidar.Track.Merge.unite_pair lidar.Track.Merge.unite_pairs lidar.Track.Merge.update_at
    lidar.Track.Steps.activate lidar.Track.Steps.add_unassigned lidar.Track.Steps.drop_erasable
    lidar.Track.Steps.erase_at lidar.Track.Steps.find_host lidar.Track.Steps.keep_latent_id
    lidar.Track.Steps.keep_shown lidar.Track.Steps.mark_lost lidar.Track.Steps.mark_all
    lidar.Track.Steps.mix_assigned lidar.Track.Steps.move_all lidar.Track.Steps.predict_one
    lidar.Track.Steps.put_latent_id lidar.Track.Steps.show lidar.Track.Steps.smooth_one
    lidar.Track.Steps.take_latent_id lidar.Track.Steps.transfer_active lidar.Track.Unite.track
    lidar.Track.add_time lidar.Track.check_immobile lidar.Track.cleanup_ids lidar.Track.cleanup_one
    lidar.Track.get_oldest lidar.Track.give_id lidar.Track.is_empty lidar.Track.next_id
    lidar.Track.oldest_of lidar.Track.put lidar.Track.remove_id lidar.Track.touch_private
lost_one = refl

unite-IsNamed_example :
    (next : MultiStage ℕ) × (unite (line false) 2000 two_tracked ≡ some next)
    × IsNamed (line false) parse_ones (print_ones 1) next
unfolding merged_of lidar.Track.is_empty lidar.Track.Ids.held lidar.Prelude.same_bytes
    lidar.Prelude.count lidar.Prelude.find
unite-IsNamed_example =
    unite-IsNamed (line false) parse_ones (print_ones 1) print_ones-IsRead refl 2000 two_tracked
      merged_two maps_two refl two_maps (omega arith) refl (omega arith, refl)

merge_in_single_stage_total_example :
    (merged : List (Trackable ℕ)) × (merge_in_single_stage
        (line true)
        1950
        ((seen 21 0 ∷ seen 5 0 ∷ []) ∷ (seen 22 0 ∷ []) ∷ [])
      ≡ some merged)
merge_in_single_stage_total_example =
    merge_in_single_stage_total (line true) 1950
      ((seen 21 0 ∷ seen 5 0 ∷ []) ∷ (seen 22 0 ∷ []) ∷ [])

abbrev pair_of : ℕ → ℕ → ℕ → TrackInfo ℕ
pair_of d i j = record { distance = d; current_index = i; merged_index = j }

-- The second pair needs what the first one has.
abbrev first_pairs : List (TrackInfo ℕ)
first_pairs = pair_of 1 0 1 ∷ []

assign_all-IsSettled_example :
    let r = assign_all (first_pairs ++ pair_of 2 1 1 ∷ pair_of 3 1 0 ∷ []) (no_maps 2 2) in
    IsSettled first_pairs (pair_of 2 1 1) r × Agree r
unfolding lidar.Track.Stable.fit
assign_all-IsSettled_example =
    assign_all-IsSettled 2 2 first_pairs (pair_of 2 1 1) (pair_of 3 1 0 ∷ []) refl

-- The first of three is older than the second, which is assigned to the third of the frame; the third
-- is assigned to the first of the frame, so that the entry that is read is not that of the frame.
abbrev crossed : Maps
crossed = assign_all (pair_of 1 1 2 ∷ pair_of 2 2 0 ∷ []) (no_maps 3 3)

crossed-Agree : Agree crossed
unfolding lidar.Track.Stable.fit
crossed-Agree = (assign_all-IsSettled 3 3 [] (pair_of 1 1 2) (pair_of 2 2 0 ∷ []) refl).1

swap_pair_lem_example : Outcome 0 2 1 crossed (get_elem? crossed.current_map 2)
unfolding assign_all lidar.Track.Matching.assign_pair no_maps
swap_pair_lem_example = swap_pair_lem 0 2 1 crossed crossed-Agree refl refl (omega arith)

-- Sorting keeps bounds of the indices.
fit-insert :
    (n k : ℕ) (ti : TrackInfo ℕ) (tis : List (TrackInfo ℕ))
    → fit n k (ti ∷ tis) ≡ true
    → fit n k (insert ti tis) ≡ true
unfolding fit insert
fit-insert n k ti [] h = h
fit-insert n k ti (tj ∷ tis) h =
    let rest = fit-insert n k ti tis (ground (arith, h)) in ground (arith, h, rest)

fit-sort_pairs : SortKeepsFit (line false)
unfolding fit sort_pairs
fit-sort_pairs n k [] h = refl
fit-sort_pairs n k (ti ∷ tis) h =
    let rest = fit-sort_pairs n k tis (ground (arith, h)) in
    fit-insert n k ti (sort_pairs tis) (ground (arith, h, rest))

unite-alike_example :
    (merged : List (Trackable ℕ)) × (maps : Maps) × (next : MultiStage ℕ) × (merged_of
        (line false)
        two_tracked
      ≡ some merged)
    × (maps_of (line false) (minus64 2000 1950) two_tracked.current merged ≡ some maps)
    × (unite (line false) 2000 two_tracked ≡ some next)
    × Agree maps
unfolding lidar.Track.Frames.alike
unite-alike_example = unite-alike (line false) fit-sort_pairs true 2000 two_tracked refl

unite-latest_example :
    (next : MultiStage ℕ) × (unite (line false) 2000 two_tracked ≡ some next)
    × (total nameless next.current ≡ 0)
    × (total inactive next.latest ≡ 0)
    × (total nameless next.latest ≡ 0)
unfolding merged_of lidar.Track.is_empty
unite-latest_example =
    unite-latest (line false) print_ones-IsText 2000 two_tracked merged_two maps_two refl two_maps
      refl

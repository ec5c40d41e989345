-- ===== src/Observer/Tests.antt =====
-- Observers of two regions on a line: an object is in region 0 below 10, and in region 1 from 10 on.
use lidar.Prelude.{
  ℕ, ◌+◌, true, false, not, List, [], ◌∷◌, none, ◌≡◌, refl, ltb, ◌==◌, if◌then◌else◌, length,
  get_elem?, find, IsDistinct,
}
use lidar.Player.{id_key}
use lidar.Observer.Objects.{invalid, ObsvObject, Geometry, ObsvObjects}
use lidar.Observer.Rects.{ObsvRect, ObsvRects, each_rect}
use lidar.Observer.Observe.{Frame, observe_rect}
use lidar.Observer.Presence.{IsKeyed, seen_in, presence, find-observe_rect}
use lidar.Observer.Balance.{turns, turns_balance}
use lidar.Observer.Running.{TrackableObserver, running, observe}
use lidar.Observer.Regions.{observe_regions, turn_at, takes, places}

abbrev line : Geometry ℕ
line = record {
  inside = λ i x. if i == 0 then ltb x 10 else not (ltb x 10);
  crossed = λ i leaves x. if ltb x 5 then 1 else 2;
  follow = λ old new. new;
  smooth = λ old new. new;
  move_done = λ x. x;
  update = λ x. x;
  measure = λ x. x;
  alive_due = λ n. ltb 1000 n;
  too_soon = λ n. ltb n 20;
}

abbrev person : ℕ → ℕ → ℕ × ObsvObject ℕ
person id x = (
  id,
  record {
    id = id;
    timestamp = 100;
    timestamp_enter = 0;
    timestamp_touched = 0;
    status = invalid;
    edge = 0;
    flags = 1;
    place = x;
  },
)

abbrev no_objects : ObsvObjects ℕ
no_objects = record {
  objects = [];
  timestamp = 0;
  alive_timestamp = 0;
  switch_timestamp = 0;
  frame_id = 0;
  last_count = none;
  valid_count = 0;
  enter_count = 0;
  last_enter_count = none;
  leave_count = 0;
  last_leave_count = none;
  gate_count = 0;
  last_gate_count = none;
  avg_lifespan = 0;
  last_avg_lifespan = none;
  lifespan_sum = 0;
  lifespan_count = 0;
  switch_duration_sum = 0;
  alive = true;
}

abbrev region : ObsvRect ℕ
region = record { invert = false; edge = 0; objects = no_objects }

abbrev halves : ObsvRects ℕ
halves = record { rects = region ∷ region ∷ []; default_rect = region; united = false }

abbrev first_frame : Frame ℕ
first_frame = record { timestamp = 100; frame_id = 1; objects = person 3 4 ∷ person 5 12 ∷ [] }

abbrev second_frame : Frame ℕ
second_frame = record { timestamp = 150; frame_id = 2; objects = person 3 11 ∷ person 5 13 ∷ [] }

first-IsKeyed : IsKeyed first_frame.objects
first-IsKeyed = (refl, (refl, tt))

first-IsDistinct : IsDistinct id_key first_frame.objects
unfolding find
first-IsDistinct = (refl, (refl, tt))

second-IsKeyed : IsKeyed second_frame.objects
second-IsKeyed = (refl, (refl, tt))

second-IsDistinct : IsDistinct id_key second_frame.objects
unfolding find
second-IsDistinct = (refl, (refl, tt))

find-observe_rect_example :
    find id_key 3 (observe_rect line false halves 0 first_frame no_objects).objects
    ≡ presence line false halves 0 100 first_frame.objects
        (seen_in line false halves 0 first_frame.objects 3)
        (find id_key 3 no_objects.objects)
find-observe_rect_example =
    find-observe_rect line false halves 0 3 first_frame no_objects first-IsKeyed first-IsDistinct

abbrev both_frames : List (Frame ℕ)
both_frames = first_frame ∷ second_frame ∷ []

turns_balance_example :
    let (os', entered, left) = turns line false halves 0 (λ o. o.place) both_frames no_objects in
    (0 + entered ≡ length os'.objects + left) × (os'.lifespan_count ≡ 0 + left)
turns_balance_example =
    turns_balance line false halves 0 (λ o. o.place) both_frames no_objects
      (first-IsKeyed, first-IsDistinct, (second-IsKeyed, second-IsDistinct, tt))

abbrev observer : TrackableObserver ℕ
observer = record {
  is_started = running;
  is_stalled = false;
  is_resuming = false;
  always_on = true;
  is_threaded = false;
  has_thread = false;
  reporting = true;
  use_latent = false;
  timestamp = 20;
  start_timestamp = 20;
  stalled_timestamp = 0;
  frame_id = 0;
  rects = halves;
}

observe_regions_example :
    let r = observe line (λ o. o.place) false first_frame observer in
    (r.1 ≡ takes line (λ o. o.place) false first_frame observer)
    × (get_elem? (each_rect r.0.rects) 1 ≡ (
        if takes line (λ o. o.place) false first_frame observer
        then turn_at line
            (places line (λ o. o.place) observer)
            false
            halves
            1
            first_frame
            (get_elem? (each_rect halves) 1)
        else get_elem? (each_rect halves) 1))
    × (r.0.timestamp ≡ (
        if takes line (λ o. o.place) false first_frame observer then first_frame.timestamp else 20))
    × (r.0.frame_id ≡ (
        if takes line (λ o. o.place) false first_frame observer then first_frame.frame_id else 0))
    × (takes line (λ o. o.place) false first_frame observer ≡ false → r.0 ≡ observer)
observe_regions_example = observe_regions line (λ o. o.place) false first_frame observer 1

-- ===== src/Observer/Observe.antt =====
-- `TrackableObserver::observe`: one frame of tracked objects for each region.
use lidar.Prelude.{
  ℕ, ◌+◌, ◌-◌, ◌/◌, ◌%◌, ◌^◌, Bool, true, false, not, ◌&&◌, ◌||◌, List, [], ◌∷◌, none, some, ltb,
  ◌==◌, if◌then◌else◌, length, find, replace, emplace,
}
use lidar.Player.{id_key}
use lidar.Observer.Objects.{
  Status, enter, leave, move, invalid, ObsvObject, Geometry, ObsvObjects, is_touched, is_latent,
  minus64,
}
use lidar.Observer.Rects.{ObsvRects, contains, edge_crossed, count_edge}

abbrev pub is_status : Status → Status → Bool
is_status enter enter = true
is_status leave leave = true
is_status move move = true
is_status invalid invalid = true
is_status _ _ = false

-- A frame, as another `ObsvObjects` holds it.
pub record Frame (F : Type 0) : Type 0 where
  pub timestamp : ℕ
  pub frame_id : ℕ
  pub objects : List (ℕ × ObsvObject F)

module _ {F : Type 0} (g : Geometry F) (use_latent : Bool) (rects : ObsvRects F) (i : ℕ) where
  -- The first part of a region's turn: the last counts, and all objects `Invalid`.
  abbrev pub mark : List (ℕ × ObsvObject F) → List (ℕ × ObsvObject F)
  mark [] = []
  mark ((k, o) ∷ os) = (k, record o { status = invalid }) ∷ mark os

  unfoldable pub begin_frame : Frame F → ObsvObjects F → ObsvObjects F
  begin_frame frame os =
      let alive = g.alive_due (minus64 frame.timestamp os.alive_timestamp) in
      record os {
        timestamp = frame.timestamp;
        alive = alive;
        frame_id = frame.frame_id;
        last_count = some os.valid_count;
        last_enter_count = some os.enter_count;
        last_leave_count = some os.leave_count;
        last_gate_count = some os.gate_count;
        last_avg_lifespan = some os.avg_lifespan;
        switch_timestamp = if os.valid_count == 0 then 0 else os.switch_timestamp;
        alive_timestamp = if alive then frame.timestamp else os.alive_timestamp;
        objects = mark os.objects;
      }

  -- The condition under which an object of the frame counts for the region.
  unfoldable pub is_seen : ObsvObject F → Bool
  is_seen o = (use_latent || not (is_latent o)) && contains g rects i o.place

  -- `obj->flags = object.flags`, and the time of the last touch
  unfoldable pub take_flags : ℕ → ObsvObject F → ObsvObject F → ObsvObject F
  take_flags time o obj = record obj {
    flags = o.flags;
    timestamp_touched = if is_touched o then time else obj.timestamp_touched;
  }

  -- An object that was not in the region.
  unfoldable pub entering : ℕ → ObsvObject F → ObsvObject F
  entering time o = take_flags time o (record o {
    status = enter;
    timestamp_enter = o.timestamp;
    timestamp_touched = o.timestamp;
    edge = edge_crossed g rects i false o.place;
    place = g.update (g.move_done (g.follow o.place o.place));
  })

  -- An object that was there already.
  unfoldable pub moving : ℕ → ObsvObject F → ObsvObject F → ObsvObject F
  moving time o obj = take_flags time o (record obj {
    timestamp = o.timestamp;
    place = g.measure (g.smooth obj.place o.place);
    status = move;
    edge = 0;
  })

  -- One round of the loop over the frame's objects.
  unfoldable pub see : ℕ → ObsvObject F → ObsvObjects F → ObsvObjects F
  see time o os =
      let count = os.enter_count + count_edge rects i (edge_crossed g rects i false o.place) in
      let entered = record os {
        objects = emplace id_key o.id (entering time o) os.objects;
        enter_count = count;
        gate_count = count - os.leave_count;
      } in
      if is_seen o
      then elim (find id_key o.id os.objects) [
        | none ↦ entered
        | some obj ↦ record os { objects = replace id_key o.id (moving time o obj) os.objects }
      ]
      else os

  unfoldable pub see_all : ℕ → List (ℕ × ObsvObject F) → ObsvObjects F → ObsvObjects F
  see_all time [] os = os
  see_all time ((k, o) ∷ others) os = see_all time others (see time o os)

  -- An object that has not been seen.
  unfoldable pub leaving : List (ℕ × ObsvObject F) → ObsvObject F → ObsvObject F
  leaving others o =
      let place = g.move_done o.place in
      record o {
        place = place;
        status = leave;
        edge = elim (find id_key o.id others) [
          | none ↦ edge_crossed g rects i true place
          | some obj ↦ edge_crossed g rects i true obj.place
        ];
      }

  -- The counts that an object changes when it leaves.
  unfoldable pub count_leaving : ObsvObject F → ObsvObjects F → ObsvObjects F
  count_leaving o os =
      let leaves = os.leave_count + count_edge rects i o.edge in
      let sum = (os.lifespan_sum + minus64 o.timestamp_touched o.timestamp_enter) % 2 ^ 64 in
      record os {
        leave_count = leaves;
        gate_count = os.enter_count - leaves;
        lifespan_sum = sum;
        lifespan_count = os.lifespan_count + 1;
        avg_lifespan = sum / (os.lifespan_count + 1) % 2 ^ 32;
      }

  -- The loop over the region's objects: the objects as it leaves them, the counts, and `invalidCount`.
  unfoldable pub leave_all :
      List (ℕ × ObsvObject F)
      → List (ℕ × ObsvObject F)
      → ObsvObjects F
      → List (ℕ × ObsvObject F) × ObsvObjects F × ℕ
  leave_all others [] os = ([], os, 0)
  leave_all others ((k, o) ∷ rest) os =
      let gone = is_status o.status invalid in
      let left = leaving others o in
      let (list, os', count) = leave_all others rest (if gone then count_leaving left os else os) in
      if gone then ((k, left) ∷ list, os', count + 1) else ((k, o) ∷ list, os', count)

  -- The last part: the number of objects in the region, and for how long there were any.
  unfoldable pub end_frame : ℕ → ObsvObjects F → ObsvObjects F
  end_frame gone os =
      let count = length os.objects - gone in
      let had : Bool = elim os.last_count [ none ↦ false | some n ↦ ltb 0 n ] in
      let lasted = minus64 os.timestamp os.switch_timestamp in
      if ltb 0 count && not had
      then record os { valid_count = count; switch_timestamp = os.timestamp }
      else if count == 0 && (had && ltb 0 os.switch_timestamp)
      then record os {
        valid_count = count;
        switch_duration_sum = (os.switch_duration_sum + lasted) % 2 ^ 64;
      }
      else record os { valid_count = count }

  -- What is done for one region before the report.
  unfoldable pub observe_rect : Frame F → ObsvObjects F → ObsvObjects F
  observe_rect frame os =
      let seen = see_all frame.timestamp frame.objects (begin_frame frame os) in
      let (list, counted, gone) = leave_all frame.objects seen.objects seen in
      end_frame gone (record counted { objects = list })

-- After the report: the objects that have left are erased.
unfoldable pub erase_left : {F : Type 0} → List (ℕ × ObsvObject F) → List (ℕ × ObsvObject F)
erase_left [] = []
erase_left ((k, o) ∷ os) =
    let rest = erase_left os in if is_status o.status leave then rest else (k, o) ∷ rest

-- What `report` does to the objects of a region: it moves the place from which the next movement of an
-- object is measured, for those that it tells of.
unfoldable pub tell :
    {F : Type 0} → (ObsvObject F → F) → List (ℕ × ObsvObject F) → List (ℕ × ObsvObject F)
tell told [] = []
tell told ((k, o) ∷ os) = (k, record o { place = told o }) ∷ tell told os

-- The whole turn of a region, with the report.
unfoldable pub turn :
    {F : Type 0}
    → Geometry F
    → Bool
    → ObsvRects F
    → ℕ
    → (ObsvObject F → F)
    → Frame F
    → ObsvObjects F
    → ObsvObjects F
turn g use_latent rects i told frame os =
    let r = observe_rect g use_latent rects i frame os in
    record r { objects = erase_left (tell told r.objects) }

-- ===== src/Observer/Running.antt =====
-- The observer as a whole: starting, stopping, resetting, and `observe` over all regions. What is written
-- about it is not modelled.
use lidar.Prelude.{
  ℕ, ◌+◌, Bool, true, false, not, ◌&&◌, ◌||◌, List, [], ◌∷◌, ◌≡◌, arith, ◌==◌, if◌then◌else◌,
}
use lidar.Observer.Objects.{ObsvObject, Geometry, minus64}
use lidar.Observer.Rects.{ObsvRect, ObsvRects, each_rect, set_rects, start_rects, reset_rects}
use lidar.Observer.Observe.{Frame, turn}

-- `isStarted`, which is -1, 0 or 1
pub data Started : Type 0 where
  never stopped running : Started

abbrev pub is_running : Started → Bool
is_running running = true
is_running _ = false

abbrev pub is_stopped : Started → Bool
is_stopped stopped = true
is_stopped _ = false

pub record TrackableObserver (F : Type 0) : Type 0 where
  pub is_started : Started
  pub is_stalled : Bool
  pub is_resuming : Bool
  pub always_on : Bool
  pub is_threaded : Bool
  pub has_thread : Bool
  pub reporting : Bool
  pub use_latent : Bool
  pub timestamp : ℕ
  pub start_timestamp : ℕ
  pub stalled_timestamp : ℕ
  pub frame_id : ℕ
  pub rects : ObsvRects F

module _ {F : Type 0} where
  -- `start`; `now` is what `getmsec` gives.
  unfoldable pub start : ℕ → ℕ → Bool → TrackableObserver F → TrackableObserver F × Bool
  start now timestamp with_rects o =
      let time = if timestamp == 0 then now else timestamp in
      let on = record o {
        is_stalled = false;
        is_resuming = false;
        is_started = running;
        rects = if with_rects then start_rects o.rects else o.rects;
      } in
      if is_running o.is_started then (o, false) else if not o.reporting then (on, true) else (
        record on {
          timestamp = time;
          start_timestamp = time;
          has_thread = o.has_thread || o.is_threaded;
        },
        true,
      )

  -- `stop`; `rects.stop()` does nothing.
  unfoldable pub stop : ℕ → ℕ → TrackableObserver F → TrackableObserver F × Bool
  stop now timestamp o =
      let off = record o { is_stalled = false; is_resuming = false; is_started = stopped } in
      if is_stopped o.is_started || o.always_on
      then (o, false)
      else if not o.reporting
      then (off, true)
      else (record off { timestamp = if timestamp == 0 then now else timestamp }, true)

  -- `reset`
  unfoldable pub reset : ℕ → ℕ → TrackableObserver F → TrackableObserver F
  reset now timestamp o =
      let halted = (stop now timestamp (record o { is_started = never })).0 in
      let was = is_running o.is_started in
      let base = if was then halted else o in
      let cleared = record base { rects = reset_rects base.rects } in
      if was then (start now timestamp false (record cleared { is_started = never })).0 else cleared

  -- `stall` and `resume`
  unfoldable pub stall : ℕ → TrackableObserver F → TrackableObserver F × Bool
  stall timestamp o = if o.is_stalled then (o, false) else (
    record o { is_stalled = true; is_resuming = false; stalled_timestamp = timestamp },
    true,
  )

  unfoldable pub resume : ℕ → TrackableObserver F → TrackableObserver F × Bool
  resume timestamp o =
      if not o.is_stalled
      then (o, false)
      else (record o { is_stalled = false; is_resuming = true; rects = start_rects o.rects }, true)

-- The loops over the regions, from the index `i` on. No region sees another one's objects.
unfoldable pub observe_each :
    {F : Type 0}
    → Geometry F
    → (ObsvObject F → F)
    → Bool
    → ObsvRects F
    → ℕ
    → Frame F
    → List (ObsvRect F)
    → List (ObsvRect F)
observe_each g told use_latent rects i frame [] = []
observe_each g told use_latent rects i frame (r ∷ rs) =
    record r { objects = turn g use_latent rects i told frame r.objects }
    ∷ observe_each g told use_latent rects (i + 1) frame rs

module _ {F : Type 0} (g : Geometry F) (told : ObsvObject F → F) where
  -- `observe`
  unfoldable pub observe : Bool → Frame F → TrackableObserver F → TrackableObserver F × Bool
  observe force frame o =
      let tells : ObsvObject F → F = if o.reporting then told else λ q. q.place in
      let regions = observe_each g tells o.use_latent o.rects 0 frame (each_rect o.rects) in
      if not (is_running o.is_started)
      then (o, false)
      else if not force && g.too_soon (minus64 frame.timestamp o.timestamp)
      then (o, false)
      else (
        record o {
          timestamp = frame.timestamp;
          frame_id = frame.frame_id;
          rects = set_rects regions o.rects;
          is_resuming = false;
        },
        true,
      )

  -- What can be done to an observer.
  pub data Call : Type 0 where
    do_start : ℕ → ℕ → Bool → Call
    do_stop : ℕ → ℕ → Call
    do_reset : ℕ → ℕ → Call
    do_stall : ℕ → Call
    do_resume : ℕ → Call
    do_observe : Bool → Frame F → Call

  abbrev pub call : Call → TrackableObserver F → TrackableObserver F
  call (do_start now time with_rects) o = (start now time with_rects o).0
  call (do_stop now time) o = (stop now time o).0
  call (do_reset now time) o = reset now time o
  call (do_stall time) o = (stall time o).0
  call (do_resume time) o = (resume time o).0
  call (do_observe force frame) o = (observe force frame o).0

  abbrev pub calls : List Call → TrackableObserver F → TrackableObserver F
  calls [] o = o
  calls (c ∷ cs) o = calls cs (call c o)

  call_on :
      (c : Call) (o : TrackableObserver F)
      → o.always_on ≡ true
      → is_running o.is_started ≡ true
      → ((call c o).always_on ≡ true) × (is_running (call c o).is_started ≡ true)
  unfolding start stop reset stall resume observe
  call_on (do_start now time with_rects) o a r = ground (arith, a, r)
  call_on (do_stop now time) o a r = ground (arith, a, r)
  call_on (do_reset now time) o a r = ground (arith, a, r)
  call_on (do_stall time) o a r = ground (arith, a, r)
  call_on (do_resume time) o a r = ground (arith, a, r)
  call_on (do_observe force frame) o a r = ground (arith, a, r)

  -- An observer that is always on and runs still runs after any calls, `stop` and `reset` among them.
  pub calls_on :
      (cs : List Call) (o : TrackableObserver F)
      → o.always_on ≡ true
      → is_running o.is_started ≡ true
      → is_running (calls cs o).is_started ≡ true
  calls_on [] o a r = r
  calls_on (c ∷ cs) o a r = let (a', r') = call_on c o a r in calls_on cs (call c o) a' r'

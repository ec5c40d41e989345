-- ===== src/Observer/Regions.antt =====
-- The regions of an observer after `observe` and after `reset`.
use lidar.Prelude.{
  ℕ, zero, suc, ◌+◌, Bool, true, false, not, ◌&&◌, ◌||◌, List, [], ◌∷◌, Option, none, some, ◌≡◌,
  refl, ap, ◌∙◌, inl, inr, Bool-cases, arith, if◌then◌else◌, length, get_elem?,
}
use lidar.Observer.Objects.{ObsvObject, Geometry, ObsvObjects, reset_objects, minus64}
use lidar.Observer.Rects.{ObsvRect, ObsvRects, each_rect, set_rects, each_objects, reset_rects}
use lidar.Observer.Observe.{Frame, turn}
use lidar.Observer.Running.{
  TrackableObserver, is_running, start, stop, reset, observe_each, observe,
}

each-set_rects :
    {F : Type 0} (regions : List (ObsvRect F)) (r : ObsvRects F)
    → length regions ≡ length (each_rect r)
    → each_rect (set_rects regions r) ≡ regions
unfolding each_rect set_rects
each-set_rects [] r h = ground (arith, h)
each-set_rects (q ∷ []) r h = ground (arith, h)
each-set_rects (q ∷ q' ∷ qs) r h = ground (arith, h)

length-each_objects :
    {F : Type 0} (f : ObsvObjects F → ObsvObjects F) (rs : List (ObsvRect F))
    → length (each_objects f rs) ≡ length rs
unfolding each_objects
length-each_objects f [] = refl
length-each_objects f (r ∷ rs) = ap (λ n. suc n) (length-each_objects f rs)

-- `reset` clears the objects and the counts of each region, and the observer runs afterwards exactly if
-- it ran before.
pub reset_regions :
    {F : Type 0} (now timestamp : ℕ) (o : TrackableObserver F)
    → (each_rect (reset now timestamp o).rects ≡ each_objects reset_objects (each_rect o.rects))
      × (is_running (reset now timestamp o).is_started ≡ is_running o.is_started)
unfolding reset start stop reset_rects
reset_regions now timestamp o =
    let regions = each_objects reset_objects (each_rect o.rects) in
    let e =
      each-set_rects regions o.rects (length-each_objects reset_objects (each_rect o.rects)) in
    (ground (arith, e), ground arith)

module _ {F : Type 0} (g : Geometry F) (told : ObsvObject F → F) where
  abbrev pub turn_at : Bool → ObsvRects F → ℕ → Frame F → Option (ObsvRect F) → Option (ObsvRect F)
  turn_at use_latent rects i frame none = none
  turn_at use_latent rects i frame (some r) =
      some (record r { objects = turn g use_latent rects i told frame r.objects })

  each_turn :
      (use_latent : Bool) (rects : ObsvRects F) (i j : ℕ) (frame : Frame F) (rs : List (ObsvRect F))
      → get_elem? (observe_each g told use_latent rects i frame rs) j
        ≡ turn_at use_latent rects (i + j) frame (get_elem? rs j)
  unfolding observe_each
  each_turn use_latent rects i j frame [] = refl
  each_turn use_latent rects i zero frame (r ∷ rs) =
      let e : i ≡ i + 0 = omega arith in ap (λ n. turn_at use_latent rects n frame (some r)) e
  each_turn use_latent rects i (suc j) frame (r ∷ rs) =
      let e : i + 1 + j ≡ i + suc j = omega arith in
      each_turn use_latent rects (i + 1) j frame rs
      ∙ ap (λ n. turn_at use_latent rects n frame (get_elem? rs j)) e

  length-observe_each :
      (use_latent : Bool) (rects : ObsvRects F) (i : ℕ) (frame : Frame F) (rs : List (ObsvRect F))
      → length (observe_each g told use_latent rects i frame rs) ≡ length rs
  unfolding observe_each
  length-observe_each use_latent rects i frame [] = refl
  length-observe_each use_latent rects i frame (r ∷ rs) =
      ap (λ n. suc n) (length-observe_each use_latent rects (i + 1) frame rs)

module _ {F : Type 0} (g : Geometry F) (told : ObsvObject F → F) where
  -- Does the observer take a frame: it runs, and the frame is forced, or does not come too soon after
  -- the last one that it took?
  abbrev pub takes : Bool → Frame F → TrackableObserver F → Bool
  takes force frame o =
      is_running o.is_started && (force || not (g.too_soon (minus64 frame.timestamp o.timestamp)))

  -- The places of the report, if there is one.
  abbrev pub places : TrackableObserver F → ObsvObject F → F
  places o = if o.reporting then told else λ q. q.place

  -- An observer that runs takes a frame that is forced, or does not come too soon: it gives each region
  -- exactly its own turn, whatever the other regions hold, and keeps the frame's time and number. It
  -- takes no other frame, and does not change with one.
  pub observe_regions :
      (force : Bool) (frame : Frame F) (o : TrackableObserver F) (j : ℕ)
      → let r = observe g told force frame o in
        (r.1 ≡ takes force frame o)
        × (get_elem? (each_rect r.0.rects) j ≡ (
            if takes force frame o
            then turn_at g (places o) o.use_latent o.rects j frame (get_elem? (each_rect o.rects) j)
            else get_elem? (each_rect o.rects) j))
        × (r.0.timestamp ≡ (if takes force frame o then frame.timestamp else o.timestamp))
        × (r.0.frame_id ≡ (if takes force frame o then frame.frame_id else o.frame_id))
        × (takes force frame o ≡ false → r.0 ≡ o)
  unfolding observe
  observe_regions force frame o j =
      let rs = each_rect o.rects in
      let tells = places o in
      let regions = observe_each g tells o.use_latent o.rects 0 frame rs in
      let e =
        each-set_rects regions o.rects
          (length-observe_each g tells o.use_latent o.rects 0 frame rs) in
      let zero_ : 0 + j ≡ j = omega arith in
      let turns : get_elem? regions j
          ≡ turn_at g tells o.use_latent o.rects j frame (get_elem? rs j) =
        each_turn g tells o.use_latent o.rects 0 j frame rs
        ∙ ap (λ n. turn_at g tells o.use_latent o.rects n frame (get_elem? rs j)) zero_ in
      let there : get_elem? (each_rect (set_rects regions o.rects)) j
          ≡ turn_at g tells o.use_latent o.rects j frame (get_elem? rs j) =
        ap (λ l. get_elem? l j) e ∙ turns in
      let seen = minus64 frame.timestamp o.timestamp in
      elim (Bool-cases (not (is_running o.is_started))) [
        | inl off ↦
            let out : takes force frame o ≡ false = ground (arith, off) in
            rw (observe, off, out) (refl, refl, refl, refl, λ h. refl)
        | inr on ↦ elim (Bool-cases (not force && g.too_soon seen)) [
          | inl soon ↦
              let out : takes force frame o ≡ false = ground (arith, on, soon) in
              rw (observe, on, soon, out) (refl, refl, refl, refl, λ h. refl)
          | inr late ↦
              let yes_ : takes force frame o ≡ true = ground (arith, on, late) in
              rw (observe, on, late, yes_) (refl, there, refl, refl, λ h. ground (arith, h))
        ]
      ]

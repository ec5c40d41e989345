-- ===== src/Observer/Balance.antt =====
-- What enters and what leaves a region over many frames.
use lidar.Prelude.{ℕ, ◌+◌, Bool, List, [], ◌∷◌, ◌≡◌, refl, arith, IsDistinct, length}
use lidar.Player.{id_key}
use lidar.Observer.Objects.{enter, leave, ObsvObject, Geometry, ObsvObjects}
use lidar.Observer.Rects.{ObsvRects}
use lidar.Observer.Observe.{Frame, observe_rect, erase_left, tell, turn}
use lidar.Observer.Presence.{IsKeyed}
use lidar.Observer.Counts.{number_of, observe_rect_counts}

tell_counts :
    {F : Type 0} (told : ObsvObject F → F) (os : List (ℕ × ObsvObject F))
    → length (erase_left (tell told os)) ≡ length (erase_left os)
unfolding erase_left tell
tell_counts told [] = refl
tell_counts told ((k, o) ∷ os) = ground (arith, tell_counts told os)

module _ {F : Type 0} (g : Geometry F) (use_latent : Bool) (rects : ObsvRects F) (i : ℕ)
    (told : ObsvObject F → F) where
  -- A region after some frames, with the numbers of all that was told to enter and to leave.
  abbrev pub turns : List (Frame F) → ObsvObjects F → ObsvObjects F × ℕ × ℕ
  turns [] os = (os, 0, 0)
  turns (frame ∷ frames) os =
      let r = observe_rect g use_latent rects i frame os in
      let (os', entered, left) = turns frames (turn g use_latent rects i told frame os) in
      (os', entered + number_of enter r.objects, left + number_of leave r.objects)

  abbrev pub AllMaps : List (Frame F) → Type 0
  AllMaps [] = Unit {0}
  AllMaps (frame ∷ frames) =
      IsKeyed frame.objects × IsDistinct id_key frame.objects × AllMaps frames

  -- Over any frames, what has entered a region has left it or is in it: the number of objects that were
  -- there and of those that entered is the number of those that left and of those that are there; and
  -- `lifespanCount` grows by the number of those that left.
  pub turns_balance :
      (frames : List (Frame F)) (os : ObsvObjects F)
      → AllMaps frames
      → let (os', entered, left) = turns frames os in
        (length os.objects + entered ≡ length os'.objects + left)
        × (os'.lifespan_count ≡ os.lifespan_count + left)
  unfolding turn
  turns_balance [] os m = (refl, omega arith)
  turns_balance (frame ∷ frames) os (k, d, ms) =
      let r = observe_rect g use_latent rects i frame os in
      let (a, b, c) = observe_rect_counts g use_latent rects i frame os k d in
      let (a', b') = turns_balance frames (turn g use_latent rects i told frame os) ms in
      let same = tell_counts told r.objects in (omega (arith, a, b, a', same), omega (arith, c, b'))

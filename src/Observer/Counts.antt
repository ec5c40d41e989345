-- ===== src/Observer/Counts.antt =====
-- How many objects enter, leave and stay.
use lidar.Prelude.{
  ℕ, ◌+◌, Bool, false, List, [], ◌∷◌, Option, none, some, ◌≡◌, refl, ap, sym, ◌∙◌, inl, inr, arith,
  ◌==◌, if◌then◌else◌, Bool-cases, Option-cases, find, count, assign, emplace, replace, IsDistinct,
  length, weigh, length-eq-weigh, weigh-assign, weigh-replace,
}
use lidar.Player.{id_key}
use lidar.Observer.Objects.{Status, enter, leave, invalid, ObsvObject, Geometry, ObsvObjects}
use lidar.Observer.Rects.{ObsvRects}
use lidar.Observer.Observe.{
  is_status, Frame, mark, begin_frame, is_seen, entering, moving, see, see_all, take_flags, leaving,
  count_leaving, leave_all, end_frame, observe_rect, erase_left,
}
use lidar.Observer.Presence.{IsKeyed, find-see, find-mark, invalidate}

abbrev pub one_if : {F : Type 0} → Status → ObsvObject F → ℕ
one_if s o = if is_status o.status s then 1 else 0

-- The number of objects of a status.
abbrev pub number_of : {F : Type 0} → Status → List (ℕ × ObsvObject F) → ℕ
number_of s os = weigh (one_if s) os

erase_left_number :
    {F : Type 0} (os : List (ℕ × ObsvObject F))
    → length (erase_left os) + number_of leave os ≡ length os
unfolding erase_left
erase_left_number [] = refl
erase_left_number ((k, o) ∷ os) = ground (arith, erase_left_number os)

abbrev entry_weight : {F : Type 0} → Status → Option (ObsvObject F) → ℕ
entry_weight s none = 0
entry_weight s (some o) = one_if s o

module _ {F : Type 0} (g : Geometry F) (use_latent : Bool) (rects : ObsvRects F) (i : ℕ) where
  -- No object that the rest of a frame shows has entered yet.
  abbrev IsFresh : List (ℕ × ObsvObject F) → ObsvObjects F → Type 0
  IsFresh [] os = Unit {0}
  IsFresh ((k, o) ∷ others) os =
      (entry_weight enter (find id_key o.id os.objects) ≡ 0) × IsFresh others os

  -- The length grows with the number of objects that have entered, and none has left.
  abbrev Grows : ObsvObjects F → ObsvObjects F → Type 0
  Grows os os' =
      (length os'.objects + number_of enter os.objects
        ≡ length os.objects + number_of enter os'.objects)
      × (number_of leave os.objects ≡ 0 → number_of leave os'.objects ≡ 0)

  entered_weights :
      (time : ℕ) (o obj : ObsvObject F)
      → (one_if enter (entering g use_latent rects i time o) ≡ 1)
        × (one_if leave (entering g use_latent rects i time o) ≡ 0)
        × (one_if enter (moving g use_latent rects i time o obj) ≡ 0)
        × (one_if leave (moving g use_latent rects i time o obj) ≡ 0)
  unfolding entering moving take_flags
  entered_weights time o obj = (refl, refl, refl, refl)

  see-Grows :
      (time : ℕ) (o : ObsvObject F) (os : ObsvObjects F)
      → entry_weight enter (find id_key o.id os.objects) ≡ 0
      → Grows os (see g use_latent rects i time o os)
  unfolding see emplace count
  see-Grows time o os fresh = elim (Bool-cases (is_seen g use_latent rects i o)) [
    | inr unseen ↦ ground (arith, unseen)
    | inl seen ↦ elim (Option-cases (find id_key o.id os.objects)) [
      | inl n ↦
          let new = entering g use_latent rects i time o in
          ground (
            arith,
            seen,
            n,
            entered_weights time o o,
            weigh-assign id_key (one_if enter) o.id new os.objects n,
            weigh-assign id_key (one_if leave) o.id new os.objects n,
            weigh-assign id_key (λ (v : ObsvObject F). 1) o.id new os.objects n,
            length-eq-weigh os.objects,
            length-eq-weigh (assign id_key o.id new os.objects),
          )
      | inr (obj, h) ↦
          let new = moving g use_latent rects i time o obj in
          ground (
            arith,
            seen,
            h,
            fresh,
            entered_weights time o obj,
            weigh-replace id_key (one_if enter) o.id new obj os.objects h,
            weigh-replace id_key (one_if leave) o.id new obj os.objects h,
            weigh-replace id_key (λ (v : ObsvObject F). 1) o.id new obj os.objects h,
            length-eq-weigh os.objects,
            length-eq-weigh (replace id_key o.id new os.objects),
          )
    ]
  ]

  IsFresh-kept :
      (time : ℕ) (o : ObsvObject F) (others : List (ℕ × ObsvObject F)) (os : ObsvObjects F)
      → IsKeyed others
      → find id_key o.id others ≡ none
      → IsFresh others os
      → IsFresh others (see g use_latent rects i time o os)
  unfolding find
  IsFresh-kept time o [] os k n f = tt
  IsFresh-kept time o ((l, q) ∷ others) os (e, ks) n (f, fs) =
      let apart : (q.id == o.id) ≡ false = ground (arith, e, n) in
      let later : find id_key o.id others ≡ none = ground (arith, n) in
      (
        ap (entry_weight enter)
              (find-see g use_latent rects i q.id time o os ∙ ground (arith, apart))
            ∙ f,
        IsFresh-kept time o others os ks later fs,
      )

  see_all-Grows :
      (time : ℕ) (others : List (ℕ × ObsvObject F)) (os : ObsvObjects F)
      → IsKeyed others
      → IsDistinct id_key others
      → IsFresh others os
      → Grows os (see_all g use_latent rects i time others os)
  unfolding see_all
  see_all-Grows time [] os k d f = (refl, λ h. h)
  see_all-Grows time ((l, o) ∷ others) os (e, ks) (d, ds) (f, fs) =
      let next = see g use_latent rects i time o os in
      let (a, b) = see-Grows time o os f in
      let (a', b') =
        see_all-Grows time others next ks ds
          (IsFresh-kept time o others os ks (ap (λ n. find id_key n others) (sym e) ∙ d) fs) in
      (omega (arith, a, a'), λ h. b' (b h))

  mark_counts :
      (os : List (ℕ × ObsvObject F))
      → (length (mark g use_latent rects i os) ≡ length os)
        × (number_of enter (mark g use_latent rects i os) ≡ 0)
        × (number_of leave (mark g use_latent rects i os) ≡ 0)
  mark_counts [] = (refl, refl, refl)
  mark_counts ((k, o) ∷ os) = ground (arith, mark_counts os)

  marked-IsFresh :
      (others : List (ℕ × ObsvObject F)) (os : ObsvObjects F) (old : List (ℕ × ObsvObject F))
      → os.objects ≡ mark g use_latent rects i old
      → IsFresh others os
  marked-IsFresh [] os old e = tt
  marked-IsFresh ((l, o) ∷ others) os old e = (
    ap (λ m. entry_weight enter (find id_key o.id m)) e
        ∙ ap (entry_weight enter) (find-mark g use_latent rects i o.id old)
        ∙ invalid_weight (find id_key o.id old),
    marked-IsFresh others os old e,
  )
    where
      invalid_weight :
          (x : Option (ObsvObject F)) → entry_weight enter (invalidate g use_latent rects i x) ≡ 0
      invalid_weight none = refl
      invalid_weight (some x) = refl

  -- What the loop over the region's objects does to the numbers.
  leave_all_counts :
      (others os : List (ℕ × ObsvObject F)) (c : ObsvObjects F)
      → let (list, c', gone) = leave_all g use_latent rects i others os c in
        (length list ≡ length os)
        × (number_of enter list ≡ number_of enter os)
        × (number_of leave list ≡ gone + number_of leave os)
        × (c'.lifespan_count ≡ c.lifespan_count + gone)
  unfolding leave_all leaving count_leaving
  leave_all_counts others [] c = (refl, refl, refl, omega arith)
  leave_all_counts others ((k, o) ∷ rest) c =
      let gone = is_status o.status invalid in
      let left = leaving g use_latent rects i others o in
      let c1 = if gone then count_leaving g use_latent rects i left c else c in
      ground (arith, leave_all_counts others rest c1)

  see_keeps :
      (time : ℕ) (others : List (ℕ × ObsvObject F)) (os : ObsvObjects F)
      → (see_all g use_latent rects i time others os).lifespan_count ≡ os.lifespan_count
  unfolding see_all see
  see_keeps time [] os = refl
  see_keeps time ((l, o) ∷ others) os =
      see_keeps time others (see g use_latent rects i time o os) ∙ ground arith

  -- After the part of `observe` before the report, `validCount` is the number of objects that will not
  -- be erased; that number and those that leave are those that were there and those that enter; and
  -- each that leaves is counted once in `lifespanCount`.
  pub observe_rect_counts :
      (frame : Frame F) (os : ObsvObjects F)
      → IsKeyed frame.objects
      → IsDistinct id_key frame.objects
      → let r = observe_rect g use_latent rects i frame os in
        (r.valid_count ≡ length (erase_left r.objects))
        × (r.valid_count + number_of leave r.objects
            ≡ length os.objects + number_of enter r.objects)
        × (r.lifespan_count ≡ os.lifespan_count + number_of leave r.objects)
  unfolding observe_rect end_frame begin_frame
  observe_rect_counts frame os k d =
      let begun = begin_frame g use_latent rects i frame os in
      let seen = see_all g use_latent rects i frame.timestamp frame.objects begun in
      let (a, b) =
        see_all-Grows frame.timestamp frame.objects begun k d
          (marked-IsFresh frame.objects begun os.objects refl) in
      let (m1, m2, m3) = mark_counts os.objects in
      let (l1, l2, l3, l4) = leave_all_counts frame.objects seen.objects seen in
      let kept = see_keeps frame.timestamp frame.objects begun in
      let list = (leave_all g use_latent rects i frame.objects seen.objects seen).0 in
      let erased = erase_left_number list in
      let b' = b m3 in
      (
        ground (arith, a, b', m1, m2, m3, l1, l2, l3, erased),
        ground (arith, a, b', m1, m2, m3, l1, l2, l3, erased),
        ground (arith, b', l3, l4, kept),
      )

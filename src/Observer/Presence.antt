-- ===== src/Observer/Presence.antt =====
-- What becomes of each object in a frame: it enters, moves, leaves, or stays away.
use lidar.Prelude.{
  ℕ, Bool, List, [], ◌∷◌, Option, none, some, ◌≡◌, refl, ap, ◌∙◌, inl, inr, arith, ◌==◌,
  if◌then◌else◌, Bool-cases, Option-cases, find, count, emplace, find-assign, find_other,
  find-replace, find_not_replaced, IsDistinct,
}
use lidar.Player.{id_key, id-same→eq}
use lidar.Observer.Objects.{invalid, ObsvObject, Geometry, ObsvObjects}
use lidar.Observer.Rects.{ObsvRects}
use lidar.Observer.Observe.{
  is_status, Frame, mark, begin_frame, is_seen, entering, moving, see, see_all, take_flags, leaving,
  count_leaving, leave_all, end_frame, observe_rect,
}

-- The entries of a map stand under their objects' identifiers.
abbrev pub IsKeyed : {F : Type 0} → List (ℕ × ObsvObject F) → Type 0
IsKeyed [] = Unit {0}
IsKeyed ((k, o) ∷ os) = (k ≡ o.id) × IsKeyed os

abbrev pub Marked : {F : Type 0} → List (ℕ × ObsvObject F) → Type 0
Marked [] = Unit {0}
Marked ((k, o) ∷ os) = (o.status ≡ invalid) × Marked os

module _ {F : Type 0} (g : Geometry F) (use_latent : Bool) (rects : ObsvRects F) (i : ℕ) where
  -- The object of a frame that counts for the region.
  abbrev pub seen_in : List (ℕ × ObsvObject F) → ℕ → Option (ObsvObject F)
  seen_in others id = elim (find id_key id others) [
    | none ↦ none
    | some o ↦ if is_seen g use_latent rects i o then some o else none
  ]

  abbrev pub invalidate : Option (ObsvObject F) → Option (ObsvObject F)
  invalidate none = none
  invalidate (some o) = some (record o { status = invalid })

  -- An object of a region after a frame, by what the frame shows of it and what there was before.
  abbrev pub presence :
      ℕ
      → List (ℕ × ObsvObject F)
      → Option (ObsvObject F)
      → Option (ObsvObject F)
      → Option (ObsvObject F)
  presence time others none none = none
  presence time others none (some o) =
      some (leaving g use_latent rects i others (record o { status = invalid }))
  presence time others (some o) none = some (entering g use_latent rects i time o)
  presence time others (some o) (some obj) =
      some (moving g use_latent rects i time o (record obj { status = invalid }))

  pub find-mark :
      (id : ℕ) (os : List (ℕ × ObsvObject F))
      → find id_key id (mark g use_latent rects i os) ≡ invalidate (find id_key id os)
  unfolding find
  find-mark id [] = refl
  find-mark id ((k, o) ∷ os) = ground (arith, find-mark id os)

  -- What the loop over the frame's objects makes of one entry.
  abbrev pub shown : ℕ → Option (ObsvObject F) → Option (ObsvObject F) → Option (ObsvObject F)
  shown time none old = old
  shown time (some o) none = some (entering g use_latent rects i time o)
  shown time (some o) (some obj) = some (moving g use_latent rects i time o obj)

  pub find-see :
      (id time : ℕ) (o : ObsvObject F) (os : ObsvObjects F)
      → find id_key id (see g use_latent rects i time o os).objects ≡ (
          if id == o.id
          then shown time
              (if is_seen g use_latent rects i o then some o else none)
              (find id_key id os.objects)
          else find id_key id os.objects)
  unfolding see emplace count
  find-see id time o os = elim (Bool-cases (is_seen g use_latent rects i o)) [
    | inr unseen ↦ ground (arith, unseen)
    | inl seen ↦ elim (Bool-cases (id == o.id)) [
      | inl e ↦
          let s = id-same→eq id o.id e in
          elim (Option-cases (find id_key o.id os.objects)) [
            | inl n ↦ ground (
              arith,
              seen,
              e,
              s,
              n,
              find-assign id_key o.id (entering g use_latent rects i time o) os.objects,
            )
            | inr (obj, h) ↦ ground (
              arith,
              seen,
              e,
              s,
              h,
              find-replace id_key o.id (moving g use_latent rects i time o obj) obj os.objects h,
            )
          ]
      | inr d ↦ elim (Option-cases (find id_key o.id os.objects)) [
        | inl n ↦ ground (
          arith,
          seen,
          d,
          n,
          find_other id_key id o.id (entering g use_latent rects i time o) os.objects d,
        )
        | inr (obj, h) ↦ ground (
          arith,
          seen,
          d,
          h,
          find_not_replaced id_key id o.id (moving g use_latent rects i time o obj) os.objects d,
        )
      ]
    ]
  ]

  pub find-see_all :
      (id time : ℕ) (others : List (ℕ × ObsvObject F)) (os : ObsvObjects F)
      → IsKeyed others
      → IsDistinct id_key others
      → find id_key id (see_all g use_latent rects i time others os).objects
        ≡ shown time (seen_in others id) (find id_key id os.objects)
  unfolding see_all find
  find-see_all id time [] os k d = refl
  find-see_all id time ((k, o) ∷ others) os (e, ks) (d, ds) =
      let rest = find-see_all id time others (see g use_latent rects i time o os) ks ds in
      let here = find-see id time o os in
      elim (Bool-cases (id == k)) [
        | inl y ↦ let s = id-same→eq id k y in rest ∙ ground (arith, y, s, e, d, here)
        | inr n ↦ rest ∙ ground (arith, n, e, here)
      ]

  -- What the loop over the region's objects makes of one entry.
  abbrev pub parted : List (ℕ × ObsvObject F) → Option (ObsvObject F) → Option (ObsvObject F)
  parted others none = none
  parted others (some o) =
      some (if is_status o.status invalid then leaving g use_latent rects i others o else o)

  pub find-leave_all :
      (id : ℕ) (others os : List (ℕ × ObsvObject F)) (c : ObsvObjects F)
      → find id_key id (leave_all g use_latent rects i others os c).0
        ≡ parted others (find id_key id os)
  unfolding leave_all find
  find-leave_all id others [] c = refl
  find-leave_all id others ((k, o) ∷ rest) c =
      let gone = is_status o.status invalid in
      let left = leaving g use_latent rects i others o in
      let c' = if gone then count_leaving g use_latent rects i left c else c in
      ground (arith, find-leave_all id others rest c')

  parted-presence :
      (time : ℕ) (others : List (ℕ × ObsvObject F)) (new old : Option (ObsvObject F))
      → parted others (shown time new (invalidate old)) ≡ presence time others new old
  unfolding entering moving take_flags
  parted-presence time others none none = refl
  parted-presence time others none (some o) = refl
  parted-presence time others (some o) none = refl
  parted-presence time others (some o) (some obj) = refl

  -- After the part of `observe` before the report, each identifier has what `presence` says, by the
  -- object that the frame shows of it and that counts for the region, and by the one that was there: it
  -- enters if it is new, it moves if it was there, it leaves if it is not shown any more.
  pub find-observe_rect :
      (id : ℕ) (frame : Frame F) (os : ObsvObjects F)
      → IsKeyed frame.objects
      → IsDistinct id_key frame.objects
      → find id_key id (observe_rect g use_latent rects i frame os).objects
        ≡ presence frame.timestamp frame.objects
            (seen_in frame.objects id)
            (find id_key id os.objects)
  unfolding observe_rect end_frame begin_frame
  find-observe_rect id frame os k d =
      let begun = begin_frame g use_latent rects i frame os in
      let seen = see_all g use_latent rects i frame.timestamp frame.objects begun in
      let all = find-see_all id frame.timestamp frame.objects begun k d in
      ground (arith, find-leave_all id frame.objects seen.objects seen)
      ∙ ap (parted frame.objects)
          (all ∙ ap (shown frame.timestamp (seen_in frame.objects id)) (find-mark id os.objects))
      ∙ parted-presence frame.timestamp frame.objects (seen_in frame.objects id)
          (find id_key id os.objects)

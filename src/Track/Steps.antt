-- ===== src/Track/Steps.antt =====
-- The loops of `TrackableMultiStage::unite`, after the assignment.
use lidar.Prelude.{
  ℕ, zero, suc, ◌+◌, Bool, true, false, not, ◌&&◌, ◌||◌, List, [], ◌∷◌, ◌++◌, Option, none, some,
  ◌==◌, if◌then◌else◌, get_elem?,
}
use lidar.KeyValue.Map.{Text}
use lidar.Observer.Objects.{minus64}
use lidar.Track.{
  put, remove_id, get_oldest, Trackable, Mask, Space, init, touch_private, check_immobile, is_empty,
  give_id,
}
use lidar.Track.Matching.{slot, is_free}
use lidar.Track.Merge.{update_at}

-- The list without the element at an index
unfoldable pub erase_at {ℓ} : {A : Type ℓ} → ℕ → List A → List A
erase_at i [] = []
erase_at zero (x ∷ xs) = xs
erase_at (suc i) (x ∷ xs) = x ∷ erase_at i xs

-- What `mergedMap` has for the trackables of the frame: is this one assigned?
abbrev pub is_assigned : List (Option ℕ) → ℕ → Bool
is_assigned m i = not (is_free (slot m i))

module _ {F D : Type 0} (s : Space F D) where
  -- What `trackableMask` tells, if there is one.
  abbrev pub mask_of : Trackable F → Mask
  mask_of t = elim s.mask [
    | none ↦ record { occluded = false; private = false; portal = false }
    | some f ↦ f t
  ]

  -- A trackable that is assigned takes over the values of the one of the frame.
  unfoldable pub mix_assigned :
      ℕ → List (Option ℕ) → List (Trackable F) → ℕ → List (Trackable F) → List (Trackable F)
  mix_assigned now current_map merged i [] = []
  mix_assigned now current_map merged i (t ∷ ts) =
      let rest = mix_assigned now current_map merged (suc i) ts in
      let source : Option (Trackable F) = elim (slot current_map i) [
        | none ↦ none
        | some j ↦ get_elem? merged j
      ] in
      elim source [
        | none ↦ t ∷ rest
        | some m ↦ record t { place = s.mix_tracked t.place m.place; last_time = now } ∷ rest
      ]

  -- The motion of the trackables, with their places before the frame.
  unfoldable pub move_all :
      ℕ → ℕ → List (Option ℕ) → List (Trackable F) → ℕ → List (Trackable F) → List (Trackable F)
  move_all now time_diff current_map before i [] = []
  move_all now time_diff current_map before i (t ∷ ts) =
      let rest = move_all now time_diff current_map before (suc i) ts in
      let last = elim (get_elem? before i) as (λ x. F) [ none ↦ t.place | some b ↦ b.place ] in
      record t {
        place = s.move time_diff (is_assigned current_map i) (minus64 now t.last_time) last t.place;
      }
      ∷ rest

  -- The loop of `putLatentId`: the distance that is left, and the nearest one that can keep the id.
  unfoldable pub find_host : ℕ → ℕ → Trackable F → ℕ → List (Trackable F) → D × Option ℕ
  find_host time lost x i [] = (s.latent_distance, none)
  find_host time lost x i (t ∷ ts) =
      let rest = find_host time lost x (suc i) ts in
      if not (i == lost) && t.is_activated
      then elim (s.closer time x.place t.place rest.0) [ none ↦ rest | some d ↦ (d, some i) ]
      else rest

  -- The trackable at an index has an id, and a host keeps it.
  unfoldable pub keep_latent_id : ℕ → ℕ → ℕ → Trackable F → List (Trackable F) → List (Trackable F)
  keep_latent_id timestamp host i named current =
      update_at host (λ t. record t { latent_ids = put named.id timestamp t.latent_ids })
        (update_at i (λ t. named) current)

  -- `putLatentId` of the trackable at an index, with the number that was given last.
  unfoldable pub put_latent_id : ℕ → ℕ → ℕ → ℕ × List (Trackable F) → ℕ × List (Trackable F)
  put_latent_id time timestamp i (last, current) = elim (get_elem? current i) [
    | none ↦ (last, current)
    | some x ↦ elim (find_host time i x 0 current).1 [
      | none ↦ (last, current)
      | some host ↦
          let named = give_id s 0 last x in
          if s.keeps_latent
          then (named.0, keep_latent_id timestamp host i named.1 current)
          else (last, current)
    ]
  ]

  -- The trackable at an index is touched or not, and is erased later if it was not seen for too long.
  unfoldable pub mark_lost :
      ℕ → ℕ → List (Option ℕ) → ℕ → ℕ × List (Trackable F) → ℕ × List (Trackable F)
  mark_lost now time_diff current_map i (last, current) =
      let assigned = is_assigned current_map i in
      let touched = update_at i (λ t. record t { is_touched = assigned }) current in
      elim (get_elem? current i) [
        | none ↦ (last, current)
        | some x ↦
            let kept =
              if (mask_of (record x { is_touched = assigned })).portal
              then (last, touched)
              else put_latent_id time_diff now i (last, touched) in
            if not assigned && s.is_lost (minus64 now x.last_time)
            then (kept.0, update_at i (λ t. record t { erasable = true }) kept.1)
            else (last, touched)
      ]

  -- The loop over the trackables from the last one down.
  unfoldable pub mark_all :
      ℕ → ℕ → List (Option ℕ) → ℕ → ℕ × List (Trackable F) → ℕ × List (Trackable F)
  mark_all now time_diff current_map zero state = state
  mark_all now time_diff current_map (suc i) state =
      mark_all now time_diff current_map i (mark_lost now time_diff current_map i state)

  -- The trackables of the frame that are not assigned, from the last one down.
  unfoldable pub add_unassigned :
      ℕ → List (Option ℕ) → ℕ → List (Trackable F) → List (Trackable F) → List (Trackable F)
  add_unassigned timestamp merged_map i [] current = current
  add_unassigned timestamp merged_map i (t ∷ ts) current =
      let rest = add_unassigned timestamp merged_map (suc i) ts current in
      if is_assigned merged_map i || t.erasable
      then rest
      else rest ++ record (init s timestamp t) { is_touched = true } ∷ []

  unfoldable pub drop_erasable : List (Trackable F) → List (Trackable F)
  drop_erasable [] = []
  drop_erasable (t ∷ ts) = let rest = drop_erasable ts in if t.erasable then rest else t ∷ rest

  -- The loop of `getLatentId`, from the last one down: the trackables, the distance that is left, and
  -- the id that was taken last, which is empty for none.
  unfoldable pub take_latent_id :
      ℕ → Trackable F → List (Trackable F) → List (Trackable F) × D × Text
  take_latent_id time x [] = ([], s.latent_distance, [])
  take_latent_id time x (t ∷ ts) =
      let (rest, distance, taken) = take_latent_id time x ts in
      if t.is_activated
      then elim (get_oldest t.latent_ids) [
        | none ↦ (t ∷ rest, distance, taken)
        | some (id, time_lost) ↦ elim (s.closer time x.place t.place distance) [
          | none ↦ (t ∷ rest, distance, taken)
          | some d ↦ (record t { latent_ids = remove_id id t.latent_ids } ∷ rest, d, id)
        ]
      ]
      else (t ∷ rest, distance, taken)

  -- A trackable at an index that is old enough gets a latent id that is near, or a new one.
  unfoldable pub activate :
      ℕ → ℕ → ℕ → Trackable F → ℕ × List (Trackable F) → ℕ × List (Trackable F)
  activate starttime time_diff i x (last, current) =
      let found : List (Trackable F) × D × Text = take_latent_id time_diff x current in
      let looked : List (Trackable F) × Text =
        if (mask_of x).portal || not s.keeps_latent then (current, []) else (found.0, found.2) in
      let named = give_id s starttime last x in
      let chosen : ℕ × Trackable F =
        if is_empty looked.1 then named else (last, record x { id = looked.1 }) in
      let active = record chosen.1 { is_activated = true; place = s.stay_here x.place } in
      (chosen.0, update_at i (λ t. active) looked.0)

  -- Is the trackable shown, and how does what is told of it change it?
  unfoldable pub show : ℕ → Trackable F → Trackable F × Bool
  show timestamp t =
      let told = mask_of t in
      let touched = touch_private told.private timestamp s.private_timeout t in
      let gated = record touched { is_portal = told.portal } in
      elim s.mask [
        | none ↦ (t, t.is_activated)
        | some f ↦
            if not t.is_activated || told.occluded
            then (t, false)
            else (check_immobile s timestamp s.immobile_timeout gated, true)
      ]

  -- The loop that transfers the active trackables, from an index on, with whether each of those before
  -- it is shown. It ends after as many rounds as there are trackables from the index on.
  unfoldable pub transfer_active :
      ℕ → ℕ → ℕ → ℕ → ℕ → ℕ × List (Trackable F) × List Bool → ℕ × List (Trackable F) × List Bool
  transfer_active zero now starttime time_diff i state = state
  transfer_active (suc rounds) now starttime time_diff i (last, current, shown) =
      elim (get_elem? current i) [
        | none ↦ (last, current, shown)
        | some x ↦
            let ready =
              not x.is_activated && (x.is_touched && s.is_active (minus64 now x.first_time)) in
            let next : ℕ × List (Trackable F) =
              if ready then activate starttime time_diff i x (last, current) else (last, current) in
            let y : Trackable F = elim (get_elem? next.1 i) [ none ↦ x | some y ↦ y ] in
            let seen = show now y in
            if not x.is_activated && s.is_inactive (minus64 now x.last_time)
            then transfer_active rounds now starttime time_diff i (last, erase_at i current, shown)
            else transfer_active rounds now starttime time_diff (i + 1)
                (next.0, update_at i (λ t. seen.0) next.1, shown ++ seen.1 ∷ [])
      ]

-- The elements that are shown.
unfoldable pub keep_shown {ℓ} : {A : Type ℓ} → List Bool → List A → List A
keep_shown shown [] = []
keep_shown [] (x ∷ xs) = []
keep_shown (b ∷ shown) (x ∷ xs) = let rest = keep_shown shown xs in if b then x ∷ rest else rest

-- A trackable with its prediction, and with its smoothed values.
unfoldable pub predict_one : {F D : Type 0} → Space F D → ℕ → Trackable F → Trackable F
predict_one s time_diff t = record t { place = s.predict time_diff t.place }

unfoldable pub smooth_one : {F D : Type 0} → Space F D → ℕ → Trackable F → Trackable F
smooth_one s time_diff t = record t { place = s.smooth time_diff t.place }

-- ===== src/Track/Transfer.antt =====
-- The loops of `unite` that add, drop and transfer trackables keep the identifiers unique.
use lidar.Prelude.{
  ℕ, zero, suc, ◌+◌, ◌^◌, ◌<◌, ◌≤◌, Bool, true, false, not, ◌&&◌, List, [], ◌∷◌, ◌++◌, Option, none,
  some, ◌≡◌, refl, ap, sym, subst, inl, inr, ◌⊎◌, arith, Bool-cases, Option-cases, get_elem?,
  length, length-append,
}
use lidar.KeyValue.Map.{Text}
use lidar.Observer.Objects.{minus64}
use lidar.Track.{Trackable, Space, is_empty, init, touch_private, check_immobile}
use lidar.Track.Merge.{update_at}
use lidar.Track.Ids.{total, total-append, total-update_at, held, held_live}
use lidar.Track.Given.{IsRead, IsUnique}
use lidar.Track.Activation.{erased, total-erase_at, Kept, activate_lem}
use lidar.Track.Steps.{erase_at, add_unassigned, drop_erasable, activate, show, transfer_active}

module _ {F D : Type 0} (s : Space F D) (k : Text) where
  held-init :
      (timestamp : ℕ) (t : Trackable F)
      → held_live k (record (init s timestamp t) { is_touched = true }) ≡ held k t
  unfolding init held held_live
  held-init timestamp t = refl

  -- The trackables of the frame bring in what stands in them.
  pub total-add_unassigned :
      (timestamp : ℕ) (merged_map : List (Option ℕ)) (i : ℕ) (ts current : List (Trackable F))
      → total (held_live k) (add_unassigned s timestamp merged_map i ts current)
        ≤ total (held_live k) current + total (held k) ts
  unfolding add_unassigned
  total-add_unassigned timestamp merged_map i [] current = omega arith
  total-add_unassigned timestamp merged_map i (t ∷ ts) current =
      let rest = total-add_unassigned timestamp merged_map (suc i) ts current in
      let all = add_unassigned s timestamp merged_map (suc i) ts current in
      let new = record (init s timestamp t) { is_touched = true } in
      let one = held-init timestamp t in
      ground (arith, rest, one, total-append (held_live k) all (new ∷ []))

  pub length-add_unassigned :
      (timestamp : ℕ) (merged_map : List (Option ℕ)) (i : ℕ) (ts current : List (Trackable F))
      → length (add_unassigned s timestamp merged_map i ts current) ≤ length current + length ts
  unfolding add_unassigned
  length-add_unassigned timestamp merged_map i [] current = omega arith
  length-add_unassigned timestamp merged_map i (t ∷ ts) current =
      let rest = length-add_unassigned timestamp merged_map (suc i) ts current in
      ground (
        arith,
        rest,
        length-append (add_unassigned s timestamp merged_map (suc i) ts current)
            (record (init s timestamp t) { is_touched = true } ∷ []),
      )

  -- What is left is not about to be erased.
  pub total-drop_erasable :
      (ts : List (Trackable F))
      → (total (held k) (drop_erasable s ts) ≤ total (held_live k) ts)
        × (total erased (drop_erasable s ts) ≡ 0)
        × (length (drop_erasable s ts) ≤ length ts)
  unfolding drop_erasable held_live
  total-drop_erasable [] = (omega arith, refl, omega arith)
  total-drop_erasable (t ∷ ts) =
      let (ids, flags, size) = total-drop_erasable ts in
      elim (Bool-cases t.erasable) [
        | inl gone ↦
            (ground (arith, gone, ids), ground (arith, gone, flags), ground (arith, gone, size))
        | inr left ↦
            (ground (arith, left, ids), ground (arith, left, flags), ground (arith, left, size))
      ]

  show_keeps :
      (timestamp : ℕ) (t : Trackable F)
      → ((show s timestamp t).0.id ≡ t.id)
        × ((show s timestamp t).0.latent_ids ≡ t.latent_ids)
        × ((show s timestamp t).0.erasable ≡ t.erasable)
  unfolding show check_immobile touch_private
  show_keeps timestamp t = (ground arith, ground arith, ground arith)

  pub held-show :
      (timestamp : ℕ) (t : Trackable F)
      → (held k (show s timestamp t).0 ≡ held k t) × (erased (show s timestamp t).0 ≡ erased t)
  unfolding held
  held-show timestamp t =
      let (ids, latents, flags) = show_keeps timestamp t in
      (ground (arith, ids, latents), ground (arith, flags))

module _ {F D : Type 0} (s : Space F D) (parse : Text → ℕ) (k : Text) where
  abbrev Transferred : ℕ → List (Trackable F) → ℕ × List (Trackable F) × List Bool → Type 0
  Transferred last current r =
      IsUnique s parse k r.0 (total (held k) r.1) × (total erased r.1 ≤ total erased current)

  pub update_at_out :
      (g : Trackable F → Trackable F) (i : ℕ) (ts : List (Trackable F))
      → get_elem? ts i ≡ none
      → update_at i g ts ≡ ts
  unfolding update_at
  update_at_out g i [] h = refl
  update_at_out g zero (t ∷ ts) h = ground (arith, h)
  update_at_out g (suc i) (t ∷ ts) h = ap (λ xs. t ∷ xs) (update_at_out g i ts h)

  -- A trackable is shown, or not.
  shown_lem :
      (timestamp i : ℕ) (y : Trackable F) (ts : List (Trackable F))
      → (get_elem? ts i ≡ some y) ⊎ (get_elem? ts i ≡ none)
      → (total (held k) (update_at i (λ t. (show s timestamp y).0) ts) ≡ total (held k) ts)
        × (total erased (update_at i (λ t. (show s timestamp y).0) ts) ≡ total erased ts)
  shown_lem timestamp i y ts (inr out) =
      let same = update_at_out (λ t. (show s timestamp y).0) i ts out in
      (ap (total (held k)) same, ap (total erased) same)
  shown_lem timestamp i y ts (inl there) =
      let new = (show s timestamp y).0 in
      let (ids, flags) = held-show s k timestamp y in
      let one = total-update_at (held k) (λ t. new) i ts y there in
      let two = total-update_at erased (λ t. new) i ts y there in (omega arith, omega arith)

  -- What a round does with the trackable at the index.
  abbrev pub RoundOf : ℕ → ℕ → ℕ → ℕ → ℕ → Trackable F → ℕ × List (Trackable F) × List Bool → Type 0
  RoundOf rounds now starttime time_diff i x (last, current, shown) =
      let r = transfer_active s (suc rounds) now starttime time_diff i (last, current, shown) in
      (r ≡ transfer_active s rounds now starttime time_diff i (last, erase_at i current, shown))
      ⊎ ((next : ℕ × List (Trackable F)) × (y : Trackable F) × ((get_elem? next.1 i ≡ some y)
            ⊎ (get_elem? next.1 i ≡ none))
          × ((next ≡ (last, current))
              ⊎ ((next ≡ activate s starttime time_diff i x (last, current))
                  × (x.is_activated ≡ false)))
          × (r
              ≡ transfer_active s rounds now starttime time_diff (i + 1) (
                next.0,
                update_at i (λ t. (show s now y).0) next.1,
                shown ++ (show s now y).1 ∷ [],
              )))

  pub round_lem :
      (rounds now starttime time_diff i last : ℕ) (current : List (Trackable F)) (shown : List Bool)
      (x : Trackable F)
      → get_elem? current i ≡ some x
      → RoundOf rounds now starttime time_diff i x (last, current, shown)
  unfolding transfer_active
  round_lem rounds now starttime time_diff i last current shown x there =
      let next = activate s starttime time_diff i x (last, current) in
      elim (Bool-cases (not x.is_activated && s.is_inactive (minus64 now x.last_time))) [
        | inl old ↦ inl (rw (transfer_active, there, old) refl)
        | inr seen ↦
            elim (Bool-cases
              (not x.is_activated && (x.is_touched && s.is_active (minus64 now x.first_time)))) [
                | inr same ↦ inr (
                  (last, current),
                  x,
                  inl there,
                  inl refl,
                  rw (transfer_active, there, seen, same, there) refl,
                )
                | inl ready ↦ elim (Option-cases (get_elem? next.1 i)) [
                  | inl out ↦ inr (
                    next,
                    x,
                    inr out,
                    inr (refl, ground (arith, ready)),
                    rw (transfer_active, there, seen, ready, out) refl,
                  )
                  | inr (y, here) ↦ inr (
                    next,
                    y,
                    inl here,
                    inr (refl, ground (arith, ready)),
                    rw (transfer_active, there, seen, ready, here) refl,
                  )
                ]
              ]
      ]

  -- The loop that transfers gives one number in a round at most.
  pub transfer_lem :
      IsRead s.print parse
      → is_empty k ≡ false
      → (rounds now starttime time_diff i last : ℕ) (current : List (Trackable F))
        (shown : List Bool)
      → last + rounds < 2 ^ 32
      → IsUnique s parse k last (total (held k) current)
      → Transferred last current
          (transfer_active s rounds now starttime time_diff i (last, current, shown))
  unfolding transfer_active
  transfer_lem r word zero now starttime time_diff i last current shown room unique =
      (unique, omega arith)
  transfer_lem r word (suc rounds) now starttime time_diff i last current shown room unique =
      elim (Option-cases (get_elem? current i)) [
        | inl end ↦ rw (transfer_active, end) (unique, omega arith)
        | inr (x, there) ↦
            let P = Transferred last current in
            elim (round_lem rounds now starttime time_diff i last current shown x there) [
              | inl e ↦
                  let fewer = total-erase_at (held k) i current in
                  let flags = total-erase_at erased i current in
                  let (u, f) =
                    transfer_lem r word rounds now starttime time_diff i last (erase_at i current)
                      shown (omega arith) (omega arith) in
                  subst P (sym e) (u, omega arith)
              | inr (next, y, here, how, e) ↦
                  let kept : Kept s parse k last current next = elim how [
                    | inl same ↦
                        subst (Kept s parse k last current) (sym same)
                          (unique, omega arith, omega arith, omega arith)
                    | inr (new, off) ↦ subst (Kept s parse k last current) (sym new) (
                        activate_lem s parse k r word starttime time_diff i last x current there off
                          (omega arith) unique)
                  ] in
                  let (ids, flags, low, high) = kept in
                  let (same, live) = shown_lem now i y next.1 here in
                  let current' = update_at i (λ t. (show s now y).0) next.1 in
                  let (u, f) =
                    transfer_lem r word rounds now starttime time_diff (i + 1) next.0 current'
                      (shown ++ (show s now y).1 ∷ []) (omega arith) (omega arith) in
                  subst P (sym e) (u, omega arith)
            ]
      ]

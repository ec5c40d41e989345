-- ===== src/Track/Named.antt =====
-- What is activated has an identifier: in each loop of `unite`.
use lidar.Prelude.{
  ℕ, zero, suc, ◌+◌, ◌≤◌, Bool, true, false, ◌&&◌, List, [], ◌∷◌, ◌++◌, Option, none, some, ◌≡◌,
  refl, ap, sym, subst, inl, inr, ◌⊎◌, arith, Option-cases, get_elem?,
}
use lidar.KeyValue.Map.{Text}
use lidar.Track.{
  Trackable, Space, put, init, is_empty, next_id, give_id, touch_private, check_immobile,
}
use lidar.Track.Merge.{update_at}
use lidar.Track.Ids.{
  one_if, total, total-append, total-update_at, total-update_at_le, get_elem?-update_at,
}
use lidar.Track.Given.{put_latent_id_cases}
use lidar.Track.Marking.{mark_cases}
use lidar.Track.Activation.{total-erase_at, activated, activate_cases, take_latent_id_keeps}
use lidar.Track.Transfer.{round_lem, update_at_out}
use lidar.Track.Steps.{
  erase_at, keep_latent_id, put_latent_id, mark_lost, mark_all, is_assigned, add_unassigned,
  drop_erasable, take_latent_id, activate, show, transfer_active,
}

-- Is a trackable activated that has no identifier?
abbrev pub nameless : {F : Type 0} → Trackable F → ℕ
nameless t = one_if (t.is_activated && is_empty t.id)

-- A number is printed as some text.
abbrev pub IsText : (ℕ → Text) → Type 0
IsText print = (n : ℕ) → is_empty (print n) ≡ false

module _ {F D : Type 0} (s : Space F D) (text_ : IsText s.print) where
  give_id_named :
      (starttime last : ℕ) (x : Trackable F) → is_empty (give_id s starttime last x).1.id ≡ false
  unfolding give_id
  give_id_named starttime last x = ground (arith, text_ (next_id last))

  keep_named :
      (timestamp host i : ℕ) (y : Trackable F) (current : List (Trackable F)) (x : Trackable F)
      → is_empty y.id ≡ false
      → get_elem? current i ≡ some x
      → total nameless (keep_latent_id s timestamp host i y current) ≤ total nameless current
  unfolding keep_latent_id
  keep_named timestamp host i y current x named there =
      let put_ : Trackable F → Trackable F =
        λ t. record t { latent_ids = put y.id timestamp t.latent_ids } in
      let inner = update_at i (λ (t : Trackable F). y) current in
      let one = total-update_at nameless (λ t. y) i current x there in
      let two = total-update_at_le nameless put_ host inner (λ t. omega arith) in
      let none_ : nameless y ≡ 0 = ground (arith, named) in omega arith

  put_latent_id_named :
      (time timestamp i last : ℕ) (current : List (Trackable F)) (x : Trackable F)
      → get_elem? current i ≡ some x
      → total nameless (put_latent_id s time timestamp i (last, current)).1 ≤ total nameless current
  put_latent_id_named time timestamp i last current x there =
      let P : ℕ × List (Trackable F) → Type 0 = λ r. total nameless r.1 ≤ total nameless current in
      elim (put_latent_id_cases s (λ t. 0) [] time timestamp i last current x there) [
        | inl same ↦ subst P (sym same) (omega arith)
        | inr (host, put_) ↦ subst P (sym put_) (
            keep_named timestamp host i (give_id s 0 last x).1 current x (give_id_named 0 last x)
              there)
      ]

  mark_lost_named :
      (now time_diff : ℕ) (current_map : List (Option ℕ)) (i last : ℕ)
      (current : List (Trackable F))
      → total nameless (mark_lost s now time_diff current_map i (last, current)).1
        ≤ total nameless current
  unfolding mark_lost
  mark_lost_named now time_diff current_map i last current =
      elim (Option-cases (get_elem? current i)) [
        | inl out ↦ rw (mark_lost, out) (omega arith)
        | inr (x, there) ↦
            let assigned = is_assigned current_map i in
            let touch : Trackable F → Trackable F = λ t. record t { is_touched = assigned } in
            let erase_ : Trackable F → Trackable F = λ t. record t { erasable = true } in
            let touched = update_at i touch current in
            let put_ = put_latent_id s time_diff now i (last, touched) in
            let P : ℕ × List (Trackable F) → Type 0 =
              λ r. total nameless r.1 ≤ total nameless current in
            let one = total-update_at_le nameless touch i current (λ t. omega arith) in
            let two = total-update_at_le nameless erase_ i touched (λ t. omega arith) in
            let three =
              put_latent_id_named time_diff now i last touched (touch x)
                (get_elem?-update_at touch i current x there) in
            let four = total-update_at_le nameless erase_ i put_.1 (λ t. omega arith) in
            elim (mark_cases s (λ t. 0) [] now time_diff current_map i last current x there) [
              | inl e ↦ subst P (sym e) one
              | inr (inl e) ↦ subst P (sym e) (omega arith)
              | inr (inr e) ↦ subst P (sym e) (omega arith)
            ]
      ]

  pub mark_all_named :
      (now time_diff : ℕ) (current_map : List (Option ℕ)) (n last : ℕ)
      (current : List (Trackable F))
      → total nameless (mark_all s now time_diff current_map n (last, current)).1
        ≤ total nameless current
  unfolding mark_all
  mark_all_named now time_diff current_map zero last current = omega arith
  mark_all_named now time_diff current_map (suc n) last current =
      let next = mark_lost s now time_diff current_map n (last, current) in
      let one = mark_lost_named now time_diff current_map n last current in
      let rest = mark_all_named now time_diff current_map n next.0 next.1 in omega arith

  new_named :
      (timestamp : ℕ) (t : Trackable F)
      → nameless (record (init s timestamp t) { is_touched = true }) ≡ 0
  unfolding init
  new_named timestamp t = refl

  pub add_unassigned_named :
      (timestamp : ℕ) (merged_map : List (Option ℕ)) (i : ℕ) (ts current : List (Trackable F))
      → total nameless (add_unassigned s timestamp merged_map i ts current) ≤ total nameless current
  unfolding add_unassigned
  add_unassigned_named timestamp merged_map i [] current = omega arith
  add_unassigned_named timestamp merged_map i (t ∷ ts) current =
      let rest = add_unassigned_named timestamp merged_map (suc i) ts current in
      let all = add_unassigned s timestamp merged_map (suc i) ts current in
      let new = record (init s timestamp t) { is_touched = true } in
      let one = new_named timestamp t in
      ground (arith, rest, one, total-append nameless all (new ∷ []))

  pub drop_erasable_named :
      (ts : List (Trackable F)) → total nameless (drop_erasable s ts) ≤ total nameless ts
  unfolding drop_erasable
  drop_erasable_named [] = omega arith
  drop_erasable_named (t ∷ ts) = let rest = drop_erasable_named ts in ground (arith, rest)

  take_latent_id_named :
      (time : ℕ) (x : Trackable F) (ts : List (Trackable F))
      → total nameless (take_latent_id s time x ts).0 ≡ total nameless ts
  unfolding take_latent_id
  take_latent_id_named time x [] = refl
  take_latent_id_named time x (t ∷ ts) =
      let rest = take_latent_id_named time x ts in ground (arith, rest)

  activated_named :
      (i : ℕ) (x : Trackable F) (named : ℕ × Trackable F) (ts : List (Trackable F))
      → is_empty named.1.id ≡ false
      → get_elem? ts i ≡ some x
      → total nameless (activated s (λ t. 0) [] i x named ts).1 ≤ total nameless ts
  activated_named i x named ts has_id there =
      let new = record named.1 { is_activated = true; place = s.stay_here x.place } in
      let one = total-update_at nameless (λ t. new) i ts x there in
      let none_ : nameless new ≡ 0 = ground (arith, has_id) in omega arith

  activate_named :
      (starttime time_diff i last : ℕ) (x : Trackable F) (current : List (Trackable F))
      → get_elem? current i ≡ some x
      → x.is_activated ≡ false
      → total nameless (activate s starttime time_diff i x (last, current)).1
        ≤ total nameless current
  activate_named starttime time_diff i last x current there off =
      let found = take_latent_id s time_diff x current in
      let same = take_latent_id_named time_diff x current in
      let there' = take_latent_id_keeps s [] time_diff x current i x there off in
      let named = give_id s starttime last x in
      let has_id = give_id_named starttime last x in
      let P : ℕ × List (Trackable F) → Type 0 = λ r. total nameless r.1 ≤ total nameless current in
      elim (activate_cases s (λ t. 0) [] starttime time_diff i x last current) [
        | inl e ↦ subst P (sym e) (activated_named i x named current has_id there)
        | inr (inl e) ↦
            let all = activated_named i x named found.0 has_id there' in
            subst P (sym e) (omega arith)
        | inr (inr (old, e)) ↦
            let all = activated_named i x (last, record x { id = found.2 }) found.0 old there' in
            subst P (sym e) (omega arith)
      ]

  show_same :
      (timestamp : ℕ) (t : Trackable F)
      → ((show s timestamp t).0.id ≡ t.id) × ((show s timestamp t).0.is_activated ≡ t.is_activated)
  unfolding show check_immobile touch_private
  show_same timestamp t = (ground arith, ground arith)

  shown_named :
      (timestamp i : ℕ) (y : Trackable F) (ts : List (Trackable F))
      → (get_elem? ts i ≡ some y) ⊎ (get_elem? ts i ≡ none)
      → total nameless (update_at i (λ t. (show s timestamp y).0) ts) ≡ total nameless ts
  shown_named timestamp i y ts (inr out) =
      ap (total nameless) (update_at_out s (λ t. 0) [] (λ t. (show s timestamp y).0) i ts out)
  shown_named timestamp i y ts (inl there) =
      let new = (show s timestamp y).0 in
      let (ids, on) = show_same timestamp y in
      let same : nameless new ≡ nameless y = ground (arith, ids, on) in
      let one = total-update_at nameless (λ t. new) i ts y there in omega arith

  pub transfer_named :
      (rounds now starttime time_diff i last : ℕ) (current : List (Trackable F)) (shown : List Bool)
      → total nameless (transfer_active s rounds now starttime time_diff i (last, current, shown)).1
        ≤ total nameless current
  unfolding transfer_active
  transfer_named zero now starttime time_diff i last current shown = omega arith
  transfer_named (suc rounds) now starttime time_diff i last current shown =
      elim (Option-cases (get_elem? current i)) [
        | inl end ↦ rw (transfer_active, end) (omega arith)
        | inr (x, there) ↦
            let P : ℕ × List (Trackable F) × List Bool → Type 0 =
              λ r. total nameless r.1 ≤ total nameless current in
            elim (round_lem s (λ t. 0) [] rounds now starttime time_diff i last current shown x
              there) [
                | inl e ↦
                    let fewer = total-erase_at nameless i current in
                    let rest =
                      transfer_named rounds now starttime time_diff i last (erase_at i current)
                        shown in
                    subst P (sym e) (omega arith)
                | inr (next, y, here, how, e) ↦
                    let Q : ℕ × List (Trackable F) → Type 0 =
                      λ n. total nameless n.1 ≤ total nameless current in
                    let kept : Q next = elim how [
                      | inl same ↦ subst Q (sym same) (omega arith)
                      | inr (new, off) ↦
                          subst Q (sym new)
                            (activate_named starttime time_diff i last x current there off)
                    ] in
                    let same = shown_named now i y next.1 here in
                    let current' = update_at i (λ t. (show s now y).0) next.1 in
                    let rest =
                      transfer_named rounds now starttime time_diff (i + 1) next.0 current'
                        (shown ++ (show s now y).1 ∷ []) in
                    subst P (sym e) (omega arith)
              ]
      ]

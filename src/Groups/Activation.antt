-- ===== src/Groups/Activation.antt =====
-- What `activateGroup` does.
use lidar.Prelude.{
  ℕ, Bool, true, false, ◌||◌, ◌&&◌, not, List, [], ◌∷◌, ◌≡◌, refl, inl, inr, arith, ◌==◌,
  if◌then◌else◌, Bool-cases, nat_same→eq, same_bytes, same_bytes→eq,
}
use lidar.KeyValue.Map.{Text}
use lidar.KeyValue.Db.{KeyValueMapDb}
use lidar.Textual.Split.{split}
use lidar.Groups.{
  is_member, add_member, LidarDevice, activate_device, activate_devices, activate_names,
  collect_inactive, LidarDevices, activate_group,
}
use lidar.Groups.Members.{is_member-add_member, belongs, HasMaps, device_in_group-belongs}

module _ (devices : ℕ → LidarDevice) (groups resolved : KeyValueMapDb) where
  -- Does the device belong to one of the groups?
  abbrev pub any_belongs : LidarDevice → List Text → Bool
  any_belongs d [] = false
  any_belongs d (name ∷ names) = belongs groups resolved d name || any_belongs d names

  activate_device_lem :
      (p : ℕ) (name : Text) (d : ℕ) (r : KeyValueMapDb) (active : List ℕ)
      → HasMaps r resolved
      → let done = activate_device devices groups name d (r, active) in
        (is_member p done.1
          ≡ (is_member p active || ((p == d) && belongs groups resolved (devices p) name)))
        × HasMaps done.0 resolved
  unfolding activate_device
  activate_device_lem p name d r active h =
      let (asked, kept) = device_in_group-belongs groups (devices d) name resolved r h in
      let added = is_member-add_member p d active in
      (
        elim (Bool-cases (p == d)) [
          | inl y ↦
              let k = nat_same→eq p d y in
              elim (Bool-cases (belongs groups resolved (devices d) name)) [
                | inl t ↦ ground (arith, y, k, t, asked, added)
                | inr n ↦ ground (arith, y, k, n, asked, added)
              ]
          | inr apart ↦ elim (Bool-cases (belongs groups resolved (devices d) name)) [
            | inl t ↦ ground (arith, apart, t, asked, added)
            | inr n ↦ ground (arith, apart, n, asked, added)
          ]
        ],
        kept,
      )

  activate_devices_lem :
      (p : ℕ) (name : Text) (ds : List ℕ) (r : KeyValueMapDb) (active : List ℕ)
      → HasMaps r resolved
      → let done = activate_devices devices groups name ds (r, active) in
        (is_member p done.1
          ≡ (is_member p active || (is_member p ds && belongs groups resolved (devices p) name)))
        × HasMaps done.0 resolved
  unfolding activate_devices is_member
  activate_devices_lem p name [] r active h = (ground arith, h)
  activate_devices_lem p name (d ∷ ds) r active h =
      let next = activate_device devices groups name d (r, active) in
      let (one, kept) = activate_device_lem p name d r active h in
      let (rest, all) = activate_devices_lem p name ds next.0 next.1 kept in
      (ground (arith, one, rest), all)

  activate_names_lem :
      (p : ℕ) (names : List Text) (ds : List ℕ) (r : KeyValueMapDb) (active : List ℕ)
      → HasMaps r resolved
      → is_member p (activate_names devices groups names ds (r, active)).1
        ≡ (is_member p active || (is_member p ds && any_belongs (devices p) names))
  unfolding activate_names
  activate_names_lem p [] ds r active h = ground arith
  activate_names_lem p (name ∷ names) ds r active h =
      let next = activate_devices devices groups name ds (r, active) in
      let (one, kept) = activate_devices_lem p name ds r active h in
      ground (arith, one, activate_names_lem p names ds next.0 next.1 kept)

collect_inactive_lem :
    (p : ℕ) (active ds inactive : List ℕ)
    → is_member p (collect_inactive active ds inactive)
      ≡ (is_member p inactive || (is_member p ds && not (is_member p active)))
unfolding collect_inactive is_member
collect_inactive_lem p active [] inactive = ground arith
collect_inactive_lem p active (d ∷ ds) inactive =
    let rest =
      collect_inactive_lem p active ds
        (if is_member d active then inactive else add_member d inactive) in
    let added = is_member-add_member p d inactive in
    elim (Bool-cases (p == d)) [
      | inl y ↦
          let k = nat_same→eq p d y in
          elim (Bool-cases (is_member d active)) [
            | inl t ↦ ground (arith, y, k, t, rest)
            | inr n ↦ ground (arith, y, k, n, rest, added)
          ]
      | inr apart ↦ elim (Bool-cases (is_member d active)) [
        | inl t ↦ ground (arith, apart, t, rest)
        | inr n ↦ ground (arith, apart, n, rest, added)
      ]
    ]

-- After `activateGroup` with a new name, a device of the list is active exactly if it belongs to one
-- of the groups that the name lists, and it is in the list of the inactive ones exactly if it is not
-- active; other devices are in neither. The name is the active one then. If it was before, nothing changes.
pub activate_group_lem :
    (devices : ℕ → LidarDevice) (groups : KeyValueMapDb) (name : Text) (resolved : KeyValueMapDb)
    (s : LidarDevices) (p : ℕ)
    → let after = (activate_group devices groups name resolved s).1 in
      let chosen =
        is_member p s.list && any_belongs devices groups resolved (devices p) (split name 44) in
      let same = same_bytes s.group_name name in
      (is_member p after.active_devices ≡ (if same then is_member p s.active_devices else chosen))
      × (is_member p after.inactive_devices
          ≡ (if same then is_member p s.inactive_devices else is_member p s.list && not chosen))
      × (after.list ≡ s.list)
      × (after.group_name ≡ name)
      × (same ≡ true → activate_group devices groups name resolved s ≡ (resolved, s))
unfolding activate_group is_member
activate_group_lem devices groups name resolved s p =
    let active = (activate_names devices groups (split name 44) s.list (resolved, [])).1 in
    let on =
      activate_names_lem devices groups resolved p (split name 44) s.list resolved [] (λ j. refl) in
    let off = collect_inactive_lem p active s.list [] in
    elim (Bool-cases (same_bytes s.group_name name)) [
      | inl same ↦ rw (same) (refl, refl, refl, same_bytes→eq s.group_name name same, λ h. refl)
      | inr new ↦ rw (new) (on, ground (arith, on, off), refl, refl, λ h. ground (arith, h))
    ]

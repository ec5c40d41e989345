-- ===== src/Groups/Members.antt =====
-- Which devices belong to a group, and which are in a list.
use lidar.Prelude.{
  ℕ, Bool, true, false, ◌||◌, List, [], ◌∷◌, ◌++◌, none, some, ◌≡◌, refl, inl, inr, arith, ◌==◌,
  if◌then◌else◌, Bool-cases, Option-cases, nat_same→eq, text, find, count, emplace, same_bytes,
  same_bytes→eq, find-assign, find_other,
}
use lidar.KeyValue.Map.{Text}
use lidar.KeyValue.Db.{KeyValueMapDb, get_map, get_copy, map_of}
use lidar.Groups.{
  is_member, add_member, LidarDevice, get_nik_name, all_devices_name, is_device, device_in_group,
}

is_member-append :
    (d e : ℕ) (ds : List ℕ) → is_member d (ds ++ e ∷ []) ≡ (is_member d ds || (d == e))
unfolding is_member
is_member-append d e [] = ground arith
is_member-append d e (x ∷ ds) = ground (arith, is_member-append d e ds)

-- `addMember` adds exactly the one device.
pub is_member-add_member :
    (d e : ℕ) (ds : List ℕ) → is_member d (add_member e ds) ≡ (is_member d ds || (d == e))
unfolding add_member
is_member-add_member d e ds = elim (Bool-cases (is_member e ds)) [
  | inl there ↦ elim (Bool-cases (d == e)) [
    | inl y ↦ let k = nat_same→eq d e y in ground (arith, there, y, k)
    | inr n ↦ ground (arith, there, n)
  ]
  | inr new ↦ ground (arith, new, is_member-append d e ds)
]

-- The map that `get` copies is the one that is there, or empty.
pub get_copy-map_of : (name : Text) (db : KeyValueMapDb) → (get_copy name db).1 ≡ map_of name db
unfolding get_copy map_of get_map count emplace
get_copy-map_of name db = elim (Option-cases (find text name db)) [
  | inl out ↦ ground (arith, out, find-assign text name [] db)
  | inr (m, there) ↦ ground (arith, there)
]

-- `get` makes a map where there is none, but an empty one.
pub map_of-get_copy :
    (j name : Text) (db : KeyValueMapDb) → map_of j (get_copy name db).0 ≡ map_of j db
unfolding get_copy map_of get_map count emplace
map_of-get_copy j name db = elim (Option-cases (find text name db)) [
  | inl out ↦ elim (Bool-cases (same_bytes j name)) [
    | inl y ↦ let k = same_bytes→eq j name y in ground (arith, out, k, find-assign text name [] db)
    | inr n ↦ ground (arith, out, n, find_other text j name [] db n)
  ]
  | inr (m, there) ↦ ground (arith, there)
]

-- Is the device in the group, by its names in the group or by its base name in the resolved one?
abbrev pub belongs : KeyValueMapDb → KeyValueMapDb → LidarDevice → Text → Bool
belongs groups resolved d [] = false
belongs groups resolved d (c ∷ name) =
    if same_bytes (c ∷ name) all_devices_name then true else elim (get_map (c ∷ name) groups) [
      | none ↦ false
      | some m ↦
          is_device (get_nik_name d) m
          || (is_device d.base_name m || is_device d.base_name (map_of (c ∷ name) resolved))
    ]

-- The databases have the same entries.
abbrev pub HasMaps : KeyValueMapDb → KeyValueMapDb → Type 0
HasMaps r s = (name : Text) → map_of name r ≡ map_of name s

pub device_in_group-belongs :
    (groups : KeyValueMapDb) (d : LidarDevice) (name : Text) (resolved r : KeyValueMapDb)
    → HasMaps r resolved
    → ((device_in_group groups d name r).1 ≡ belongs groups resolved d name)
      × HasMaps (device_in_group groups d name r).0 resolved
unfolding device_in_group
device_in_group-belongs groups d [] resolved r h = (refl, h)
device_in_group-belongs groups d (c ∷ name) resolved r h =
    let copied = get_copy-map_of (c ∷ name) r in
    elim (Bool-cases (same_bytes (c ∷ name) all_devices_name)) [
      | inl all ↦ (ground (arith, all), λ j. ground (arith, all, h j))
      | inr other ↦ elim (Option-cases (get_map (c ∷ name) groups)) [
        | inl out ↦ (ground (arith, other, out), λ j. ground (arith, other, out, h j))
        | inr (m, there) ↦ (
          ground (arith, other, there, copied, h (c ∷ name)),
          λ j. ground (arith, other, there, map_of-get_copy j (c ∷ name) r, h j),
        )
      ]
    ]

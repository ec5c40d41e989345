-- ===== src/Groups/Changes.antt =====
-- What the operations of `LidarDeviceGroup` do to the entries of the groups.
use lidar.Prelude.{
  not, ◌||◌, ◌&&◌, List, [], ◌∷◌, Option, none, some, ◌≡◌, refl, ap, ◌∙◌, inl, inr, arith,
  if◌then◌else◌, Bool-cases, text, find, count, emplace, erase, find-assign, find_other, same_bytes,
  same_bytes→eq, IsDistinct, find-erase, find_not_erased,
}
use lidar.KeyValue.Map.{Text, KeyValueMap, get, remove, set_all}
use lidar.KeyValue.Laws.{get-remove, or_else}
use lidar.KeyValue.Db.{
  KeyValueMapDb, get_map, get_copy, map_of, remove_map, set_map, entry, entry-set_map,
}
use lidar.Groups.{in_each_group, remove_device, all_devices_name}
use lidar.Groups.Members.{get_copy-map_of, map_of-get_copy}

module _ {ℓ} {V : Type ℓ} where
  find_erased_none :
      (j k : Text) (m : List (Text × V))
      → find text j m ≡ none
      → find text j (erase text k m) ≡ none
  unfolding erase find
  find_erased_none j k [] h = refl
  find_erased_none j k ((l, w) ∷ m) h = elim (Bool-cases (same_bytes j l)) [
    | inl y ↦ ground (arith, y, h)
    | inr n ↦ elim (Bool-cases (same_bytes k l)) [
      | inl t ↦ ground (arith, n, t, h, find_erased_none j k m)
      | inr o ↦ ground (arith, n, o, h, find_erased_none j k m)
    ]
  ]

  erase-IsDistinct :
      (k : Text) (m : List (Text × V)) → IsDistinct text m → IsDistinct text (erase text k m)
  unfolding erase
  erase-IsDistinct k [] h = tt
  erase-IsDistinct k ((l, w) ∷ m) (out, h) = elim (Bool-cases (same_bytes k l)) [
    | inl t ↦ rw (t) (erase-IsDistinct k m h)
    | inr o ↦ rw (o) (find_erased_none l k m out, erase-IsDistinct k m h)
  ]

map_of-in_each_group :
    (f : KeyValueMap → KeyValueMap) (n : Text) (groups : KeyValueMapDb)
    → f [] ≡ []
    → map_of n (in_each_group f groups) ≡ f (map_of n groups)
unfolding in_each_group map_of get_map find
map_of-in_each_group f n [] h = ground (arith, h)
map_of-in_each_group f n ((l, m) ∷ groups) h = elim (Bool-cases (same_bytes n l)) [
  | inl y ↦ ground (arith, y)
  | inr o ↦ ground (arith, o, map_of-in_each_group f n groups h)
]

map_of-remove_map :
    (n name : Text) (db : KeyValueMapDb)
    → map_of n (remove_map name db) ≡ (if same_bytes n name then [] else map_of n db)
unfolding map_of get_map remove_map
map_of-remove_map n name db = elim (Bool-cases (same_bytes n name)) [
  | inl e ↦ let k = same_bytes→eq n name e in ground (arith, e, k, find-erase text name db)
  | inr d ↦ ground (arith, d, find_not_erased text n name db d)
]

or_else-none : (v : Option Text) → or_else v none ≡ v
or_else-none none = refl
or_else-none (some v) = refl

entries-remove_device :
    (n j group device : Text) (groups : KeyValueMapDb)
    → IsDistinct text (map_of group groups)
    → entry n j (remove_device group device groups) ≡ (
        if same_bytes j device && (same_bytes group all_devices_name || same_bytes n group)
        then none
        else entry n j groups)
unfolding remove_device remove erase get find
entries-remove_device n j group device groups d =
    let got = get_copy group groups in
    let copied = get_copy-map_of group groups in
    elim (Bool-cases (same_bytes group all_devices_name)) [
      | inl all ↦
          let each = map_of-in_each_group (remove device) n groups refl in
          let here = get-remove j device (map_of n groups) in
          elim (Bool-cases (same_bytes j device)) [
            | inl y ↦ ground (arith, all, each, here, y)
            | inr o ↦ ground (arith, all, each, here, o)
          ]
      | inr one ↦
          let apart : IsDistinct text (remove device got.1) =
            rw (copied) (erase-IsDistinct device (map_of group groups) d) in
          let stored =
            entry-set_map n j group (remove device got.1) (remove_map group got.0) apart in
          let there = map_of-remove_map n group got.0 in
          let kept = map_of-get_copy n group groups in
          let here = get-remove j device (map_of group groups) in
          elim (Bool-cases (same_bytes n group)) [
            | inl e ↦
                let k = same_bytes→eq n group e in
                let nothing : map_of n (remove_map group got.0) ≡ [] = ground (arith, there, e) in
                let gone : entry n j (remove_map group got.0) ≡ none = ap (get j) nothing in
                let last = or_else-none (get j (remove device got.1)) in
                let left : entry n j (remove_device group device groups)
                    ≡ get j (remove device got.1) =
                  ground (arith, one, e, stored, gone, last) in
                left ∙ ap (λ m. get j (remove device m)) copied ∙ ground (arith, one, e, k, here)
            | inr o ↦
                let other : map_of n (remove_map group got.0) ≡ map_of n groups =
                  ground (arith, there, o, kept) in
                let same : entry n j (remove_map group got.0) ≡ entry n j groups =
                  ap (get j) other in
                ground (arith, one, o, stored, same)
          ]
    ]

count-in_each_group :
    (f : KeyValueMap → KeyValueMap) (n : Text) (groups : KeyValueMapDb)
    → count text n (in_each_group f groups) ≡ count text n groups
unfolding in_each_group count find
count-in_each_group f n [] = refl
count-in_each_group f n ((l, m) ∷ groups) = ground (arith, count-in_each_group f n groups)

-- The groups that there are after `removeDevice`.
count-remove_device :
    (n group device : Text) (groups : KeyValueMapDb)
    → count text n (remove_device group device groups)
      ≡ (count text n groups || (not (same_bytes group all_devices_name) && same_bytes n group))
unfolding remove_device set_map remove_map get_copy emplace count
count-remove_device n group device groups =
    let got = get_copy group groups in
    let rest = erase text group got.0 in
    let stored = set_all (remove device got.1) (map_of group rest) in
    elim (Bool-cases (same_bytes group all_devices_name)) [
      | inl all ↦
          let each = count-in_each_group (remove device) n groups in ground (arith, all, each)
      | inr one ↦ elim (Bool-cases (same_bytes n group)) [
        | inl e ↦
            let k = same_bytes→eq n group e in
            ground (arith, one, e, k, find-assign text group stored rest)
        | inr o ↦ ground (
          arith,
          one,
          o,
          find_other text n group stored rest o,
          find_not_erased text n group got.0 o,
          find_other text n group [] groups o,
        )
      ]
    ]

-- `removeDevice` takes the device out of this group, or out of every group if its name is `all`, and
-- changes no other entry, if no key has two entries in the group. No group goes, and none comes, but for
-- this one: a group that was not there is there afterwards, unless its name is `all`.
pub entry-remove_device :
    (n j group device : Text) (groups : KeyValueMapDb)
    → IsDistinct text (map_of group groups)
    → (entry n j (remove_device group device groups) ≡ (
        if same_bytes j device && (same_bytes group all_devices_name || same_bytes n group)
        then none
        else entry n j groups))
      × (count text n (remove_device group device groups) ≡ (
          count text n groups || (not (same_bytes group all_devices_name) && same_bytes n group)))
entry-remove_device n j group device groups d =
    (entries-remove_device n j group device groups d, count-remove_device n group device groups)

-- ===== src/KeyValue/Db.antt =====
-- `KeyValueMapDb`: maps by name.
use lidar.Prelude.{
  Bool, true, false, List, [], Option, none, some, ◌≡◌, inl, inr, arith, if◌then◌else◌, Bool-cases,
  Option-cases, text, find, count, assign, emplace, erase, same_bytes, same_bytes→eq, find-assign,
  find_other, find-erase, find_not_erased, IsDistinct,
}
use lidar.KeyValue.Map.{Text, KeyValueMap, get, set_text, set_all, remove}
use lidar.KeyValue.Laws.{get-set_text, get-remove, get-set_all, or_else}

abbrev pub KeyValueMapDb : Type 0
KeyValueMapDb = List (Text × KeyValueMap)

-- `get( key, KeyValueMap *& )`
unfoldable pub get_map : Text → KeyValueMapDb → Option KeyValueMap
get_map name db = find text name db

-- `get( name, KeyValueMap & )`, which makes an empty map if there is none.
unfoldable pub get_copy : Text → KeyValueMapDb → KeyValueMapDb × KeyValueMap
get_copy name db =
    let db' = if count text name db then db else emplace text name [] db in
    (db', elim (find text name db') [ none ↦ [] | some m ↦ m ])

-- The entry that the two `set` write to: the one that is there, or a new one.
unfoldable pub map_of : Text → KeyValueMapDb → KeyValueMap
map_of name db = elim (get_map name db) [ none ↦ [] | some m ↦ m ]

-- `set( name, map )`
unfoldable pub set_map : Text → KeyValueMap → KeyValueMapDb → KeyValueMapDb
set_map name other db = assign text name (set_all other (map_of name db)) db

-- `set( name, key, value )`
unfoldable pub set_entry : Text → Text → Text → KeyValueMapDb → KeyValueMapDb
set_entry name key value db = assign text name (set_text key value (map_of name db)) db

-- `remove( name, key )`
unfoldable pub remove_entry : Text → Text → KeyValueMapDb → KeyValueMapDb
remove_entry name key db = elim (get_map name db) [
  | none ↦ db
  | some m ↦ assign text name (remove key m) db
]

-- `remove( key )`
unfoldable pub remove_map : Text → KeyValueMapDb → KeyValueMapDb
remove_map name db = erase text name db

-- `rename`
unfoldable pub rename_map : Text → Text → KeyValueMapDb → KeyValueMapDb × Bool
rename_map key new_name db = elim (find text key db) [
  | none ↦ (db, false)
  | some m ↦ (emplace text new_name m (erase text key db), true)
]

-- The value of a key in the map of a name.
abbrev pub entry : Text → Text → KeyValueMapDb → Option Text
entry name key db = get key (map_of name db)

map_of-assign :
    (n name : Text) (m : KeyValueMap) (db : KeyValueMapDb)
    → map_of n (assign text name m db) ≡ (if same_bytes n name then m else map_of n db)
unfolding map_of get_map
map_of-assign n name m db = elim (Bool-cases (same_bytes n name)) [
  | inl e ↦ let k = same_bytes→eq n name e in ground (arith, e, k, find-assign text name m db)
  | inr d ↦ ground (arith, d, find_other text n name m db d)
]

abbrev pub both : Text → Text → Text → Text → Bool
both n name j key = if same_bytes n name then same_bytes j key else false

-- `set( name, key, value )` changes the entry of this name and key, and no other.
pub entry-set_entry :
    (n j name key value : Text) (db : KeyValueMapDb)
    → entry n j (set_entry name key value db)
      ≡ (if both n name j key then some value else entry n j db)
unfolding set_entry
entry-set_entry n j name key value db = elim (Bool-cases (same_bytes n name)) [
  | inl e ↦
      let k = same_bytes→eq n name e in
      ground (
        arith,
        e,
        k,
        map_of-assign n name (set_text key value (map_of name db)) db,
        get-set_text j key value (map_of name db),
      )
  | inr d ↦ ground (arith, d, map_of-assign n name (set_text key value (map_of name db)) db)
]

-- `set( name, map )` merges the map into the one of this name: its entries take precedence, and the
-- other names keep theirs.
pub entry-set_map :
    (n j name : Text) (other : KeyValueMap) (db : KeyValueMapDb)
    → IsDistinct text other
    → entry n j (set_map name other db)
      ≡ (if same_bytes n name then or_else (get j other) (entry n j db) else entry n j db)
unfolding set_map
entry-set_map n j name other db h = elim (Bool-cases (same_bytes n name)) [
  | inl e ↦
      let k = same_bytes→eq n name e in
      ground (
        arith,
        e,
        k,
        map_of-assign n name (set_all other (map_of name db)) db,
        get-set_all other (map_of name db) j h,
      )
  | inr d ↦ ground (arith, d, map_of-assign n name (set_all other (map_of name db)) db)
]

nothing_there :
    (n j name : Text) (db : KeyValueMapDb) → get_map name db ≡ none → entry name j db ≡ none
unfolding map_of get find
nothing_there n j name db h = ground (arith, h)

found :
    (name : Text) (m : KeyValueMap) (db : KeyValueMapDb)
    → get_map name db ≡ some m
    → map_of name db ≡ m
unfolding map_of
found name m db e = ground (arith, e)

-- `remove( name, key )` takes this entry out, and no other.
pub entry-remove_entry :
    (n j name key : Text) (db : KeyValueMapDb)
    → entry n j (remove_entry name key db) ≡ (if both n name j key then none else entry n j db)
unfolding remove_entry
entry-remove_entry n j name key db = elim (Bool-cases (same_bytes n name)) [
  | inl e ↦
      let k = same_bytes→eq n name e in
      elim (Option-cases (get_map name db)) [
        | inl none_ ↦ ground (arith, e, k, none_, nothing_there n j name db none_)
        | inr (m, some_) ↦ ground (
          arith,
          e,
          k,
          some_,
          map_of-assign n name (remove key m) db,
          get-remove j key m,
          found name m db some_,
        )
      ]
  | inr d ↦ elim (Option-cases (get_map name db)) [
    | inl none_ ↦ ground (arith, d, none_)
    | inr (m, some_) ↦ ground (arith, d, some_, map_of-assign n name (remove key m) db)
  ]
]

-- `remove( name )` takes the map of this name out, and leaves the maps of the other names.
pub get_map-remove_map :
    (n name : Text) (db : KeyValueMapDb)
    → get_map n (remove_map name db) ≡ (if same_bytes n name then none else get_map n db)
unfolding get_map remove_map
get_map-remove_map n name db = elim (Bool-cases (same_bytes n name)) [
  | inl e ↦ let k = same_bytes→eq n name e in ground (arith, e, k, find-erase text name db)
  | inr d ↦ ground (arith, d, find_not_erased text n name db d)
]

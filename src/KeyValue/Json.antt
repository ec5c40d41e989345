-- ===== src/KeyValue/Json.antt =====
-- `writeKeyValues` and `readKeyValues`, `writeKeyValueMapDB` and `readKeyValueMapDB`: maps as JSON
-- values. Printing and parsing of the JSON text is rapidjson's.
use lidar.Prelude.{List, [], ◌∷◌, Option, none, some, ◌≡◌, refl, ap, ◌∙◌, text, find, same_bytes}
use lidar.Virt.Driver.{codes}
use lidar.KeyValue.Map.{Text, KeyValueMap, set_text, set_all}
use lidar.KeyValue.Db.{KeyValueMapDb, set_map}

-- An object with members that are strings.
abbrev pub Object : Type 0
Object = List (Text × Text)

-- The values that hold a map: an object, an array of objects, or anything else.
pub data Json : Type 0 where
  object : Object → Json
  array : List Object → Json
  other : Json

-- An object of a file of maps, by its two members.
pub record Named : Type 0 where
  pub name : Option Text
  pub map_ : Json

-- The object of an entry: `setString( json, "key", … )` and `setString( json, "value", … )`
unfoldable pub entry_object : Text → Text → Object
entry_object key value = (codes "key", key) ∷ (codes "value", value) ∷ []

unfoldable pub entry_objects : KeyValueMap → List Object
entry_objects [] = []
entry_objects ((key, value) ∷ m) = entry_object key value ∷ entry_objects m

-- `writeKeyValues`
unfoldable pub write_key_values : KeyValueMap → Json
write_key_values ((key, value) ∷ []) = object (entry_object key value)
write_key_values m = array (entry_objects m)

-- `fromJson( json, key, std::string & )`: the first member of this name.
unfoldable pub from_json : Object → Text → Option Text
from_json json key = find text key json

-- One object is read into the map, if it has both members.
unfoldable pub read_object : Object → KeyValueMap → KeyValueMap
read_object json m = elim (from_json json (codes "value")) [
  | none ↦ m
  | some value ↦ elim (from_json json (codes "key")) [ none ↦ m | some key ↦ set_text key value m ]
]

unfoldable pub read_objects : List Object → KeyValueMap → KeyValueMap
read_objects [] m = m
read_objects (json ∷ jsons) m = read_objects jsons (read_object json m)

-- `readKeyValues`; rapidjson stops the program at `Size()` of what is not an array.
unfoldable pub read_key_values : Json → KeyValueMap → Option KeyValueMap
read_key_values (object json) m = some (read_object json m)
read_key_values (array jsons) m = some (read_objects jsons m)
read_key_values other m = none

read-entry_object :
    (key value : Text) (m : KeyValueMap)
    → read_object (entry_object key value) m ≡ set_text key value m
unfolding read_object entry_object from_json find same_bytes
read-entry_object key value m = refl

read-entry_objects : (kvs m : KeyValueMap) → read_objects (entry_objects kvs) m ≡ set_all kvs m
unfolding read_objects entry_objects set_all
read-entry_objects [] m = refl
read-entry_objects ((key, value) ∷ kvs) m =
    ap (read_objects (entry_objects kvs)) (read-entry_object key value m)
    ∙ read-entry_objects kvs (set_text key value m)

-- Reading what was written of a map sets all its entries, whatever the map is that it is read into,
-- and whatever form the map's size made `writeKeyValues` choose.
pub read-write_key_values :
    (kvs m : KeyValueMap) → read_key_values (write_key_values kvs) m ≡ some (set_all kvs m)
unfolding read_key_values write_key_values set_all
read-write_key_values [] m = ap some (read-entry_objects [] m)
read-write_key_values ((key, value) ∷ []) m = ap some (read-entry_object key value m)
read-write_key_values ((key, value) ∷ (key', value') ∷ kvs) m =
    ap some (read-entry_objects ((key, value) ∷ (key', value') ∷ kvs) m)

-- `writeKeyValueMapDB`
unfoldable pub write_db : KeyValueMapDb → List Named
write_db [] = []
write_db ((name, m) ∷ db) = record { name = some name; map_ = write_key_values m } ∷ write_db db

-- The body of the loop of `readKeyValueMapDB`
unfoldable pub read_named : Named → KeyValueMapDb → KeyValueMapDb
read_named json db = elim json.name [
  | none ↦ db
  | some name ↦ elim (read_key_values json.map_ []) [ none ↦ db | some m ↦ set_map name m db ]
]

-- `readKeyValueMapDB`, which reads the array from its end.
unfoldable pub read_db : List Named → KeyValueMapDb → KeyValueMapDb
read_db [] db = db
read_db (json ∷ jsons) db = read_named json (read_db jsons db)

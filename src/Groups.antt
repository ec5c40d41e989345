-- ===== src/Groups.antt =====
-- The groups of sensors in lidartool/cpp/lidarKit.cpp: `LidarDeviceList`, `LidarDeviceGroup`, and of
-- `LidarDevices` what selects devices. A pointer to a device is a number; what the devices hold is the
-- function from these to devices.
use lidar.Prelude.{
  ℕ, zero, suc, ◌+◌, Bool, true, false, ◌||◌, ◌&&◌, not, List, [], ◌∷◌, ◌++◌, Option, none, some,
  ◌==◌, if◌then◌else◌, text, find, replace, same_bytes,
}
use lidar.Virt.Driver.{codes}
use lidar.KeyValue.Map.{Text, KeyValueMap, get, set_text, remove, rename}
use lidar.KeyValue.Db.{KeyValueMapDb, get_map, get_copy, set_map, set_entry, remove_map, rename_map}
use lidar.Textual.Split.{split}
pub mod Members
pub mod Activation
pub mod Changes
mod Tests

-- `LidarDeviceList::isMember`
unfoldable pub is_member : ℕ → List ℕ → Bool
is_member device [] = false
is_member device (d ∷ ds) = let rest = is_member device ds in if device == d then true else rest

-- `LidarDeviceList::addMember`
unfoldable pub add_member : ℕ → List ℕ → List ℕ
add_member device ds = if is_member device ds then ds else ds ++ device ∷ []

-- What of a `LidarDevice` selects it; `base_name` is what `getBaseName` gives.
pub record LidarDevice : Type 0 where
  pub nik_name : Text
  pub base_name : Text
  pub is_open : Bool
  pub is_ready : Bool
  pub data_received : Bool
  pub in_file_name : Text
  pub in_virt_url : Text

-- `getNikName`
unfoldable pub get_nik_name : LidarDevice → Text
get_nik_name d = elim d.nik_name [ [] ↦ d.base_name | c ∷ s ↦ c ∷ s ]

abbrev pub device_value : Text
device_value = codes "device"

abbrev pub all_devices_name : Text
all_devices_name = codes "all"

-- `LidarDeviceGroup::addDevice`
unfoldable pub add_device : Text → Text → KeyValueMapDb → KeyValueMapDb
add_device group device groups =
    let got = get_copy group groups in set_map group (set_text device device_value got.1) got.0

-- The loops over all groups.
unfoldable pub in_each_group : (KeyValueMap → KeyValueMap) → KeyValueMapDb → KeyValueMapDb
in_each_group f [] = []
in_each_group f ((name, m) ∷ groups) = (name, f m) ∷ in_each_group f groups

-- `LidarDeviceGroup::removeDevice`
unfoldable pub remove_device : Text → Text → KeyValueMapDb → KeyValueMapDb
remove_device group device groups =
    let got = get_copy group groups in
    if same_bytes group all_devices_name
    then in_each_group (remove device) groups
    else set_map group (remove device got.1) (remove_map group got.0)

-- `LidarDeviceGroup::removeGroup`
unfoldable pub remove_group : Text → KeyValueMapDb → KeyValueMapDb
remove_group group groups = remove_map group groups

-- `LidarDeviceGroup::renameGroup`
unfoldable pub rename_group : Text → Text → KeyValueMapDb → KeyValueMapDb
rename_group old_name new_name groups = (rename_map old_name new_name groups).0

-- `LidarDeviceGroup::renameDevice`
unfoldable pub rename_device : Text → Text → Text → KeyValueMapDb → KeyValueMapDb
rename_device group old_name new_name groups =
    if same_bytes group all_devices_name
    then in_each_group (λ m. (rename old_name new_name m).0) groups
    else elim (get_map group groups) [
      | none ↦ groups
      | some m ↦ replace text group (rename old_name new_name m).0 groups
    ]

-- `LidarDeviceGroup::resolveDevices`: the entries of a group that are devices, by their base names.
-- `base_of` gives the base name of the device that the callback makes of a name.
unfoldable pub resolve_group : (Text → Text) → Text → KeyValueMap → KeyValueMapDb → KeyValueMapDb
resolve_group base_of group [] resolved = resolved
resolve_group base_of group ((key, value) ∷ m) resolved = resolve_group base_of group m (
    if same_bytes value device_value
    then set_entry group (base_of key) device_value resolved
    else resolved)

unfoldable pub resolve_all : (Text → Text) → KeyValueMapDb → KeyValueMapDb → KeyValueMapDb
resolve_all base_of [] resolved = resolved
resolve_all base_of ((group, m) ∷ groups) resolved =
    resolve_all base_of groups (resolve_group base_of group m resolved)

unfoldable pub resolve_devices : (Text → Text) → KeyValueMapDb → KeyValueMapDb
resolve_devices base_of groups = resolve_all base_of groups []

-- `map.get( name, value ) && value == "device"`
unfoldable pub is_device : Text → KeyValueMap → Bool
is_device name m = elim (get name m) [ none ↦ false | some value ↦ same_bytes value device_value ]

-- `LidarDevices::deviceInGroup`: the resolved groups, in which an empty map may be made, and the
-- answer.
unfoldable pub device_in_group :
    KeyValueMapDb → LidarDevice → Text → KeyValueMapDb → KeyValueMapDb × Bool
device_in_group groups d [] resolved = (resolved, false)
device_in_group groups d (c ∷ name) resolved =
    let got = get_copy (c ∷ name) resolved in
    if same_bytes (c ∷ name) all_devices_name
    then (resolved, true)
    else elim (get_map (c ∷ name) groups) [
      | none ↦ (resolved, false)
      | some m ↦ (
        got.0,
        is_device (get_nik_name d) m || (is_device d.base_name m || is_device d.base_name got.1),
      )
    ]

module _ (devices : ℕ → LidarDevice) (groups : KeyValueMapDb) where
  -- One device in the loop of `activateGroup`.
  unfoldable pub activate_device : Text → ℕ → KeyValueMapDb × List ℕ → KeyValueMapDb × List ℕ
  activate_device name d (resolved, active) =
      let asked = device_in_group groups (devices d) name resolved in
      (asked.0, if asked.1 then add_member d active else active)

  unfoldable pub activate_devices : Text → List ℕ → KeyValueMapDb × List ℕ → KeyValueMapDb × List ℕ
  activate_devices name [] s = s
  activate_devices name (d ∷ ds) s = activate_devices name ds (activate_device name d s)

  unfoldable pub activate_names :
      List Text → List ℕ → KeyValueMapDb × List ℕ → KeyValueMapDb × List ℕ
  activate_names [] ds s = s
  activate_names (name ∷ names) ds s = activate_names names ds (activate_devices name ds s)

-- The devices that are not active.
unfoldable pub collect_inactive : List ℕ → List ℕ → List ℕ → List ℕ
collect_inactive active [] inactive = inactive
collect_inactive active (d ∷ ds) inactive =
    collect_inactive active ds (if is_member d active then inactive else add_member d inactive)

pub record LidarDevices : Type 0 where
  pub list : List ℕ
  pub group_name : Text
  pub active_devices : List ℕ
  pub inactive_devices : List ℕ

-- `LidarDevices::activateGroup`, with the resolved groups
unfoldable pub activate_group :
    (ℕ → LidarDevice)
    → KeyValueMapDb
    → Text
    → KeyValueMapDb
    → LidarDevices
    → KeyValueMapDb × LidarDevices
activate_group devices groups name resolved s =
    let done = activate_names devices groups (split name 44) s.list (resolved, []) in
    if same_bytes s.group_name name then (resolved, s) else (
      done.0,
      record {
        list = s.list;
        group_name = name;
        active_devices = done.1;
        inactive_devices = collect_inactive done.1 s.list [];
      },
    )

-- Is a group one of the names?
unfoldable pub is_name : Text → List Text → Bool
is_name group [] = false
is_name group (n ∷ ns) = let rest = is_name group ns in if same_bytes n group then true else rest

-- `LidarDevices::isActive`
unfoldable pub is_active : Text → LidarDevices → Bool
is_active group s =
    same_bytes s.group_name all_devices_name || is_name group (split s.group_name 44)

-- `LidarDevices::runningDevices`
unfoldable pub running_devices : (ℕ → LidarDevice) → Bool → List ℕ → List ℕ
running_devices devices only_valid [] = []
running_devices devices only_valid (d ∷ ds) =
    let rest = running_devices devices only_valid ds in
    if (devices d).is_open
      && (not only_valid || ((devices d).is_ready && (devices d).data_received))
    then d ∷ rest
    else rest

-- `LidarDevices::runningOrAllDevices`
unfoldable pub running_or_all_devices : (ℕ → LidarDevice) → Bool → List ℕ → List ℕ
running_or_all_devices devices all ds = if all then ds else running_devices devices true ds

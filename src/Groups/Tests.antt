-- ===== src/Groups/Tests.antt =====
-- Groups of two devices.
use lidar.Prelude.{
  ℕ, true, false, ◌||◌, ◌&&◌, not, [], ◌∷◌, none, ◌≡◌, refl, ◌==◌, if◌then◌else◌, text, find,
  same_bytes, IsDistinct, count, emplace, assign, replace, erase,
}
use lidar.Virt.Driver.{codes}
use lidar.KeyValue.Map.{get, rename}
use lidar.KeyValue.Db.{KeyValueMapDb, entry, map_of, get_map, get_copy}
use lidar.Textual.Split.{split, lines_of, read_line, get_line}
use lidar.Groups.{
  LidarDevice, LidarDevices, device_value, is_member, add_member, remove_device, rename_device,
  activate_group, all_devices_name, activate_names, activate_devices, activate_device,
  device_in_group, get_nik_name, is_device,
}
use lidar.Groups.Activation.{any_belongs, activate_group_lem}
use lidar.Groups.Changes.{entry-remove_device}

abbrev left_device : LidarDevice
left_device = record {
  nik_name = codes "left";
  base_name = codes "ttyUSB0";
  is_open = true;
  is_ready = true;
  data_received = true;
  in_file_name = [];
  in_virt_url = [];
}

abbrev right_device : LidarDevice
right_device = record {
  nik_name = [];
  base_name = codes "ttyUSB1";
  is_open = false;
  is_ready = false;
  data_received = false;
  in_file_name = [];
  in_virt_url = [];
}

abbrev devices_at : ℕ → LidarDevice
devices_at p = if p == 0 then left_device else right_device

abbrev stage : KeyValueMapDb
stage =
    (codes "hall", (codes "left", device_value) ∷ [])
    ∷ (codes "room", (codes "left", device_value) ∷ (codes "ttyUSB1", device_value) ∷ [])
    ∷ []

abbrev at_start : LidarDevices
at_start = record { list = 0 ∷ 1 ∷ []; group_name = []; active_devices = []; inactive_devices = [] }

activate_group_lem_example :
    let after = (activate_group devices_at stage (codes "hall") [] at_start).1 in
    let chosen =
      is_member 1 at_start.list
      && any_belongs devices_at stage [] (devices_at 1) (split (codes "hall") 44) in
    let same = same_bytes at_start.group_name (codes "hall") in
    (is_member 1 after.active_devices
      ≡ (if same then is_member 1 at_start.active_devices else chosen))
    × (is_member 1 after.inactive_devices ≡ (
        if same
        then is_member 1 at_start.inactive_devices
        else is_member 1 at_start.list && not chosen))
    × (after.list ≡ at_start.list)
    × (after.group_name ≡ codes "hall")
    × (same ≡ true → activate_group devices_at stage (codes "hall") [] at_start ≡ ([], at_start))
activate_group_lem_example = activate_group_lem devices_at stage (codes "hall") [] at_start 1

only_left : (activate_group devices_at stage (codes "hall") [] at_start).1.active_devices ≡ 0 ∷ []
unfolding activate_group same_bytes activate_names activate_devices activate_device device_in_group
    get_nik_name is_device find split lines_of read_line get_line add_member is_member get get_map
    get_copy count emplace assign
only_left = refl

hall-IsDistinct : IsDistinct text (map_of (codes "hall") stage)
unfolding map_of get_map find same_bytes
hall-IsDistinct = (refl, tt)

entry-remove_device_example :
    (entry (codes "room") (codes "left") (remove_device (codes "hall") (codes "left") stage) ≡ (
      if same_bytes (codes "left") (codes "left")
        && (same_bytes (codes "hall") all_devices_name || same_bytes (codes "room") (codes "hall"))
      then none
      else entry (codes "room") (codes "left") stage))
    × (count text (codes "room") (remove_device (codes "hall") (codes "left") stage) ≡ (
        count text (codes "room") stage
        || (not (same_bytes (codes "hall") all_devices_name)
            && same_bytes (codes "room") (codes "hall"))))
entry-remove_device_example =
    entry-remove_device (codes "room") (codes "left") (codes "hall") (codes "left") stage
      hall-IsDistinct

-- A device that is renamed to one that is in the group is lost.
two_in_one :
    rename_device (codes "room") (codes "left") (codes "ttyUSB1") stage
    ≡ (codes "hall", (codes "left", device_value) ∷ [])
      ∷ (codes "room", (codes "ttyUSB1", device_value) ∷ [])
      ∷ []
unfolding rename_device same_bytes get_map find rename replace erase emplace count
two_in_one = refl

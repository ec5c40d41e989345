-- ===== src/Virt/ScanList.antt =====
-- `LidarScanDataList`: the scans that are being received, in the order of their sequence numbers.
-- The constructor leaves `seqFailureCount` unset, so the model takes its first value as an argument.
pub mod Order
pub mod Grab
use lidar.Prelude.{
  ℕ, zero, suc, ◌+◌, Bool, true, false, List, [], ◌∷◌, Option, none, some, ltb, ◌==◌, if◌then◌else◌,
  length, get_elem?, set, ◌&&◌, not,
}
use lidar.Virt.Message.{LidarRawSample, ScanMsg}
use lidar.Virt.Scan.{LidarScanData, lidar_scan_data, complete, add_data}

pub record LidarScanDataList : Type 0 where
  pub scans : List LidarScanData
  pub current_seq_nr : ℕ
  pub seq_failure_count : ℕ

unfoldable pub lidar_scan_data_list : ℕ → LidarScanDataList
lidar_scan_data_list failures = record {
  scans = [];
  current_seq_nr = 0;
  seq_failure_count = failures;
}

-- The loops `for ( int i = size()-1; i >= 0; --i ) if ( p ) return i`.
unfoldable pub last_index : (LidarScanData → Bool) → List LidarScanData → Option ℕ
last_index p [] = none
last_index p (d ∷ ds) = elim (last_index p ds) [
  | some i ↦ some (suc i)
  | none ↦ if p d then some 0 else none
]

-- `emplace( begin()+i, seqNr )`
unfoldable pub emplace : ℕ → LidarScanData → List LidarScanData → List LidarScanData
emplace zero d ds = d ∷ ds
emplace (suc i) d [] = d ∷ []
emplace (suc i) d (x ∷ ds) = x ∷ emplace i d ds

-- `if ( size() > 16 ) erase( begin() )`
unfoldable pub make_room : List LidarScanData → List LidarScanData
make_room [] = []
make_room (d ∷ ds) = if ltb 16 (length (d ∷ ds)) then ds else d ∷ ds

unfoldable pub insert_new : ℕ → List LidarScanData → List LidarScanData × ℕ
insert_new seq_nr ds = elim (last_index (λ d. ltb d.seq_nr seq_nr) ds) [
  | some i ↦ (emplace (i + 1) (lidar_scan_data seq_nr) ds, i + 1)
  | none ↦ (emplace 0 (lidar_scan_data seq_nr) ds, 0)
]

-- `getScanData`: the list afterwards, and the index of the scan that is returned by reference.
unfoldable pub get_scan_data : ℕ → List LidarScanData → List LidarScanData × ℕ
get_scan_data seq_nr ds = elim (last_index (λ d. d.seq_nr == seq_nr) ds) [
  | some i ↦ (ds, i)
  | none ↦ insert_new seq_nr (make_room ds)
]

-- The variables of the loop in `grabScanData`.
pub record Grabbing : Type 0 where
  pub success : Bool
  pub nodes : List LidarRawSample
  pub current : ℕ
  pub failures : ℕ

pub data Action : Type 0 where
  keep erase stop : Action

-- One round of the loop, on the scan at `i`.
unfoldable pub grab_step : Bool → LidarScanData → Grabbing → Grabbing × Action
grab_step latest d g =
    if complete d
    then (if ltb d.seq_nr g.current && ltb (g.failures + 1) 15
        then (record g { failures = g.failures + 1 }, erase)
        else (
          record { success = true; nodes = d.nodes; current = d.seq_nr; failures = 0 },
          if latest then erase else stop,
        ))
    else (g, keep)

-- The loop over the scans that are left; it gives those that stay in the list.
unfoldable pub grab_loop : Bool → List LidarScanData → Grabbing → Grabbing × List LidarScanData
grab_loop latest [] g = (g, [])
grab_loop latest (d ∷ ds) g =
    let (g', action) = grab_step latest d g in
    let (g'', kept) = grab_loop latest ds g' in
    elim action [ keep ↦ (g'', d ∷ kept) | erase ↦ (g'', kept) | stop ↦ (g', ds) ]

-- `grabScanData`: the list afterwards, whether a scan was grabbed, and the caller's samples.
unfoldable pub grab_scan_data :
    Bool → LidarScanDataList → List LidarRawSample → LidarScanDataList × Bool × List LidarRawSample
grab_scan_data latest l nodes =
    let start : Grabbing = record {
      success = false;
      nodes = nodes;
      current = l.current_seq_nr;
      failures = l.seq_failure_count;
    } in
    let (g, kept) = grab_loop latest l.scans start in
    (
      record { scans = kept; current_seq_nr = g.current; seq_failure_count = g.failures },
      g.success,
      g.nodes,
    )

-- `getScanData(header.seqNr).addData( … )`
unfoldable pub receive_packet : LidarScanDataList → ScanMsg → Option LidarScanDataList
receive_packet l m =
    let (ds, i) = get_scan_data m.header.seq_nr l.scans in
    elim (get_elem? ds i) [
      | none ↦ none
      | some d ↦ elim (add_data d m) [
        | none ↦ none
        | some d' ↦ some (record l { scans = set ds i d' })
      ]
    ]

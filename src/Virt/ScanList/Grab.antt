-- ===== src/Virt/ScanList/Grab.antt =====
-- `grabScanData`: which scan the caller gets, and which ones stay in the list.
use lidar.Prelude.{
  ℕ, suc, ◌+◌, ◌≤◌, ◌<◌, Bool, true, false, List, [], ◌∷◌, ◌++◌, Option, none, some, ◌≡◌, refl, ◌∙◌,
  arith, if◌then◌else◌, length,
}
use lidar.Virt.Message.{LidarRawSample}
use lidar.Virt.Scan.{LidarScanData, complete}
use lidar.Virt.ScanList.Order.{Ascends}
use lidar.Virt.ScanList.{LidarScanDataList, Grabbing, grab_step, grab_loop, grab_scan_data}

-- The scans with a packet missing.
pub incomplete : List LidarScanData → List LidarScanData
incomplete [] = []
incomplete (d ∷ ds) = let rest = incomplete ds in if complete d then rest else d ∷ rest

-- The complete scan of the highest number, in ascending order.
pub newest : List LidarScanData → Option LidarScanData
newest [] = none
newest (d ∷ ds) = elim (newest ds) [ some n ↦ some n | none ↦ if complete d then some d else none ]

abbrev grabbed : Option LidarScanData → Grabbing → Grabbing
grabbed none g = g
grabbed (some d) g = record { success = true; nodes = d.nodes; current = d.seq_nr; failures = 0 }

grab_loop_ascending :
    (lo : ℕ) (ds : List LidarScanData) (g : Grabbing)
    → Ascends lo ds
    → g.current ≤ lo
    → grab_loop true ds g ≡ (grabbed (newest ds) g, incomplete ds)
unfolding grab_loop grab_step newest incomplete
grab_loop_ascending lo [] g v h = refl
grab_loop_ascending lo (d ∷ ds) g v h = ground (
  arith,
  grab_loop_ascending (suc d.seq_nr) ds g v.1,
  grab_loop_ascending (suc d.seq_nr) ds (grabbed (some d) g) v.1,
)

abbrev pub samples_of : Option LidarScanData → List LidarRawSample → List LidarRawSample
samples_of none nodes = nodes
samples_of (some d) nodes = d.nodes

abbrev pub number_of : Option LidarScanData → ℕ → ℕ
number_of none current = current
number_of (some d) current = d.seq_nr

abbrev pub failures_of : Option LidarScanData → ℕ → ℕ
failures_of none failures = failures
failures_of (some d) failures = 0

abbrev pub is_some : Option LidarScanData → Bool
is_some none = false
is_some (some d) = true

-- If no scan in the list is older than the one grabbed last, `grabScanData` with `grabLatest` gives
-- the samples of the newest complete scan, remembers its number and counts failures from 0, fails and
-- changes nothing if no scan is complete, and leaves exactly the incomplete scans in the list.
pub grab_scan_data_latest :
    (l : LidarScanDataList) (nodes : List LidarRawSample)
    → Ascends l.current_seq_nr l.scans
    → let r = grab_scan_data true l nodes in
      (r.1 ≡ is_some (newest l.scans))
      × (r.2 ≡ samples_of (newest l.scans) nodes)
      × (r.0.current_seq_nr ≡ number_of (newest l.scans) l.current_seq_nr)
      × (r.0.scans ≡ incomplete l.scans)
      × (r.0.seq_failure_count ≡ failures_of (newest l.scans) l.seq_failure_count)
unfolding grab_scan_data
grab_scan_data_latest l nodes v =
    let start : Grabbing = record {
      success = false;
      nodes = nodes;
      current = l.current_seq_nr;
      failures = l.seq_failure_count;
    } in
    ground (arith, grab_loop_ascending l.current_seq_nr l.scans start v (omega arith))

-- A list with one scan, which is complete.
pub grab_one :
    (l : LidarScanDataList) (d : LidarScanData) (old : List LidarRawSample)
    → l.scans ≡ d ∷ []
    → complete d ≡ true
    → l.current_seq_nr ≤ d.seq_nr
    → ((grab_scan_data true l old).1 ≡ true)
      × ((grab_scan_data true l old).2 ≡ d.nodes)
      × ((grab_scan_data true l old).0.scans ≡ [])
unfolding newest incomplete
grab_one l d old e c h =
    let (done, samples, number, left, failures) = grab_scan_data_latest l old (rw e (h, tt)) in
    (done ∙ rw (e, newest, c), samples ∙ rw (e, newest, c), left ∙ rw (e, incomplete, c))

-- Complete scans with numbers below `current`, as a sender that was started anew gives them.
abbrev pub Stale : ℕ → List LidarScanData → Type 0
Stale current [] = Unit {0}
Stale current (d ∷ ds) = (complete d ≡ true) × (d.seq_nr < current) × Stale current ds

Stale-dropped :
    (latest : Bool) (ds rest : List LidarScanData) (g : Grabbing)
    → Stale g.current ds
    → g.failures + length ds < 15
    → grab_loop latest (ds ++ rest) g
      ≡ grab_loop latest rest (record g { failures = g.failures + length ds })
unfolding grab_loop grab_step
Stale-dropped latest [] rest g v h = ground (arith)
Stale-dropped latest (d ∷ ds) rest g v h =
    ground (
      arith,
      Stale-dropped latest ds rest (record g { failures = g.failures + 1 }) v.2 (omega arith),
    )

-- Scans below the number that was grabbed last are dropped, but not for ever: fourteen of them are,
-- from a count of `failures` on fewer, and the next one is taken, so that a restarted sender is seen.
pub grab_scan_data_restart :
    (latest : Bool) (l : LidarScanDataList) (ds : List LidarScanData) (d : LidarScanData)
    (nodes : List LidarRawSample)
    → l.scans ≡ ds ++ d ∷ []
    → Stale l.current_seq_nr (d ∷ ds)
    → l.seq_failure_count + length ds ≡ 14
    → grab_scan_data latest l nodes
      ≡ (record { scans = []; current_seq_nr = d.seq_nr; seq_failure_count = 0 }, true, d.nodes)
unfolding grab_scan_data grab_loop grab_step
grab_scan_data_restart latest l ds d nodes e (c, b, v) n =
    let start : Grabbing = record {
      success = false;
      nodes = nodes;
      current = l.current_seq_nr;
      failures = l.seq_failure_count;
    } in
    rw e (ground (arith, Stale-dropped latest ds (d ∷ []) start v (omega arith)))

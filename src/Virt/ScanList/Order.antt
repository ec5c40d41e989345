-- ===== src/Virt/ScanList/Order.antt =====
-- `getScanData` keeps the scans in ascending order and their number within bounds, and returns the
-- one scan that has the number asked for.
use lidar.Prelude.{
  ℕ, suc, ◌+◌, ◌≤◌, ◌<◌, Bool, true, false, ◌&&◌, sym, ap, ◌∙◌, List, [], ◌∷◌, Option, none, some,
  ◌≡◌, ◌≢◌, refl, inl, inr, arith, ltb, ◌==◌, ==_iff, if◌then◌else◌, Bool-cases, Option-cases,
  length, get_elem?,
}
use lidar.Virt.Scan.{LidarScanData, lidar_scan_data}
use lidar.Virt.ScanList.{last_index, emplace, make_room, insert_new, get_scan_data}

-- The sequence numbers ascend, from `lo` on.
abbrev pub Ascends : ℕ → List LidarScanData → Type 0
Ascends lo [] = Unit {0}
Ascends lo (d ∷ ds) = (lo ≤ d.seq_nr) × Ascends (suc d.seq_nr) ds

pub Ascends-mono : (lo hi : ℕ) (ds : List LidarScanData) → lo ≤ hi → Ascends hi ds → Ascends lo ds
Ascends-mono lo hi [] h v = tt
Ascends-mono lo hi (d ∷ ds) h v = (omega arith, v.1)

-- What the list is for: the scan of a number, if there is one.
pub find : ℕ → List LidarScanData → Option LidarScanData
find seq [] = none
find seq (d ∷ ds) = if d.seq_nr == seq then some d else find seq ds

-- Insertion into an ordered list, by its definition.
abbrev place : ℕ → List LidarScanData → List LidarScanData
place seq [] = lidar_scan_data seq ∷ []
place seq (d ∷ ds) = if ltb d.seq_nr seq then d ∷ place seq ds else lidar_scan_data seq ∷ d ∷ ds

none_below :
    (seq lo : ℕ) (ds : List LidarScanData)
    → seq ≤ lo
    → Ascends lo ds
    → last_index (λ d. ltb d.seq_nr seq) ds ≡ none
unfolding last_index
none_below seq lo [] h v = refl
none_below seq lo (d ∷ ds) h v = ground (arith, none_below seq (suc d.seq_nr) ds (omega arith) v.1)

-- Where the new scan goes, as the loop finds it.
abbrev behind : Option ℕ → ℕ
behind none = 0
behind (some i) = suc i

abbrev slot : ℕ → List LidarScanData → ℕ
slot seq ds = behind (last_index (λ d. ltb d.seq_nr seq) ds)

insert_new-slot :
    (seq : ℕ) (ds : List LidarScanData)
    → insert_new seq ds ≡ (emplace (slot seq ds) (lidar_scan_data seq) ds, slot seq ds)
unfolding insert_new
insert_new-slot seq ds = elim (Option-cases (last_index (λ d. ltb d.seq_nr seq) ds)) [
  | inl e ↦ rw (e, insert_new) refl
  | inr (i, e) ↦ let s : i + 1 ≡ suc i = omega arith in rw (e, insert_new, s) refl
]

emplace-place :
    (seq lo : ℕ) (ds : List LidarScanData)
    → Ascends lo ds
    → emplace (slot seq ds) (lidar_scan_data seq) ds ≡ place seq ds
unfolding last_index emplace
emplace-place seq lo [] v = refl
emplace-place seq lo (d ∷ ds) v =
    ground (arith, emplace-place seq (suc d.seq_nr) ds v.1, none_below seq (suc d.seq_nr) ds)

slot_get :
    (seq : ℕ) (ds : List LidarScanData)
    → get_elem? (emplace (slot seq ds) (lidar_scan_data seq) ds) (slot seq ds)
      ≡ some (lidar_scan_data seq)
unfolding last_index emplace
slot_get seq [] = refl
slot_get seq (d ∷ ds) = ground (arith, slot_get seq ds)

place-Ascends :
    (seq lo : ℕ) (ds : List LidarScanData)
    → lo ≤ seq
    → Ascends lo ds
    → find seq ds ≡ none
    → Ascends lo (place seq ds)
unfolding find lidar_scan_data
place-Ascends seq lo [] h v e = (h, tt)
place-Ascends seq lo (d ∷ ds) h v e =
    ground (arith, place-Ascends seq (suc d.seq_nr) ds, Ascends-mono (suc seq) d.seq_nr ds)

length-place : (seq : ℕ) (ds : List LidarScanData) → length (place seq ds) ≡ length ds + 1
length-place seq [] = omega arith
length-place seq (d ∷ ds) = ground (arith, length-place seq ds)

find-place : (seq k : ℕ) (ds : List LidarScanData) → k ≢ seq → find k (place seq ds) ≡ find k ds
unfolding find lidar_scan_data
find-place seq k [] h = ground arith
find-place seq k (d ∷ ds) h = ground (arith, find-place seq k ds h)

make_room-Ascends : (ds : List LidarScanData) → Ascends 0 ds → Ascends 0 (make_room ds)
unfolding make_room
make_room-Ascends [] v = tt
make_room-Ascends (d ∷ ds) v = ground (arith, Ascends-mono 0 (suc d.seq_nr) ds (omega arith) v.1)

length-make_room : (ds : List LidarScanData) → length ds ≤ 17 → length (make_room ds) ≤ 16
unfolding make_room
length-make_room [] h = omega arith
length-make_room (d ∷ ds) h = ground arith

find-make_room-none :
    (seq : ℕ) (ds : List LidarScanData) → find seq ds ≡ none → find seq (make_room ds) ≡ none
unfolding make_room find
find-make_room-none seq [] h = refl
find-make_room-none seq (d ∷ ds) h = ground arith

-- The first loop finds the scan of the number asked for, where `find` does.
abbrev Looks : ℕ → List LidarScanData → Option ℕ → Type 0
Looks seq ds none = find seq ds ≡ none
Looks seq ds (some i) =
    (d : LidarScanData) × (get_elem? ds i ≡ some d) × (d.seq_nr ≡ seq) × (find seq ds ≡ some d)

find_above : (seq lo : ℕ) (ds : List LidarScanData) → Ascends lo ds → seq < lo → find seq ds ≡ none
unfolding find
find_above seq lo [] v h = refl
find_above seq lo (d ∷ ds) v h = ground (arith, find_above seq (suc d.seq_nr) ds v.1)

last_index-Looks :
    (seq lo : ℕ) (ds : List LidarScanData)
    → Ascends lo ds
    → Looks seq ds (last_index (λ d. d.seq_nr == seq) ds)
unfolding last_index find
last_index-Looks seq lo [] v = refl
last_index-Looks seq lo (d ∷ ds) v = elim (Option-cases (last_index (λ d. d.seq_nr == seq) ds)) [
  | inl e ↦
      let rest = rw e at (last_index-Looks seq (suc d.seq_nr) ds v.1) in
      elim (Bool-cases (d.seq_nr == seq)) [
        | inl same ↦
            rw (e, last_index, same) (d, refl, (==_iff d.seq_nr seq).0 same, rw (same, find))
        | inr differs ↦ rw (e, last_index, differs) (rw (differs, find) rest)
      ]
  | inr (i, e) ↦
      let (d', at_, same, found) = rw e at (last_index-Looks seq (suc d.seq_nr) ds v.1) in
      rw (e, last_index) (d', at_, same, ground (arith, find_above seq (suc d.seq_nr) ds v.1))
]

-- The scan that `getScanData` is asked for: the one in the list, or else a new one.
abbrev pub asked : ℕ → Option LidarScanData → LidarScanData
asked seq (some d) = d
asked seq none = lidar_scan_data seq

abbrev is_absent : Option LidarScanData → Bool
is_absent none = true
is_absent (some d) = false

-- Is this the number of the oldest scan of a full list, which has 17, and the number asked for a new one?
abbrev pub is_dropped : ℕ → ℕ → List LidarScanData → Bool
is_dropped seq k [] = false
is_dropped seq k (d ∷ ds) =
    is_absent (find seq (d ∷ ds)) && (length (d ∷ ds) == 17 && d.seq_nr == k)

present :
    (seq k : ℕ) (ds : List LidarScanData) (d : LidarScanData)
    → find seq ds ≡ some d
    → is_dropped seq k ds ≡ false
present seq k [] d e = refl
present seq k (x ∷ ds) d e = rw (e) refl

-- Room is made by dropping the oldest scan, and no other one.
find-make_room :
    (seq k : ℕ) (ds : List LidarScanData)
    → Ascends 0 ds
    → length ds ≤ 17
    → find seq ds ≡ none
    → find k (make_room ds) ≡ (if is_dropped seq k ds then none else find k ds)
unfolding make_room find
find-make_room seq k [] v l h = refl
find-make_room seq k (d ∷ ds) v l h =
    let above = find_above k (suc d.seq_nr) ds v.1 in
    let absent : is_absent (find seq (d ∷ ds)) ≡ true = rw (h) refl in
    ground (arith, above, l, absent, h)

-- In a list of at most 17 scans in ascending order, `getScanData` returns the scan of the number
-- asked for, or a new one; the list stays in ascending order and within 17 scans, and every other
-- number finds the scan that it found before, but for the oldest of 17 scans, which a new number drops.
pub get_scan_data_lem :
    (seq k : ℕ) (ds : List LidarScanData)
    → Ascends 0 ds
    → length ds ≤ 17
    → k ≢ seq
    → let r = get_scan_data seq ds in
      (get_elem? r.0 r.1 ≡ some (asked seq (find seq ds)))
      × Ascends 0 r.0
      × (length r.0 ≤ 17)
      × (find k r.0 ≡ (if is_dropped seq k ds then none else find k ds))
unfolding get_scan_data
get_scan_data_lem seq k ds v l n = elim (Option-cases (last_index (λ d. d.seq_nr == seq) ds)) [
  | inl e ↦
      let absent = rw e at (last_index-Looks seq 0 ds v) in
      let v' = make_room-Ascends ds v in
      let new = find-make_room-none seq ds absent in
      let placed = emplace-place seq 0 (make_room ds) v' in
      rw (e, get_scan_data, absent, insert_new-slot)
        (
          slot_get seq (make_room ds),
          rw placed (place-Ascends seq 0 (make_room ds) (omega arith) v' new),
          rw placed (omega (arith, length-place seq (make_room ds), length-make_room ds l)),
          rw placed (find-place seq k (make_room ds) n ∙ find-make_room seq k ds v l absent),
        )
  | inr (i, e) ↦
      let (d, at_, same, found) = rw e at (last_index-Looks seq 0 ds v) in
      let stays : is_dropped seq k ds ≡ false = present seq k ds d found in
      rw (e, get_scan_data) (at_ ∙ ap (λ x. some (asked seq x)) (sym found), v, l, rw (stays) refl)
]

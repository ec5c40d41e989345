-- ===== src/Lslidar.antt =====
-- lidartool/cpp/lslidarDriver.cpp: `LSLidarDriver` with a sensor of the model N10 (the M10 is in
-- Lslidar/M10). The serial port is the list of what each `read` gives. What becomes of raw angles and distances in floating point is
-- the parameter `Degrees`.
use lidar.Prelude.{
  ℕ, zero, suc, ◌+◌, ◌-◌, ◌*◌, ◌%◌, Bool, true, false, ◌&&◌, List, [], ◌∷◌, ◌++◌, Option, none,
  some, ltb, leb, ◌==◌, if◌then◌else◌, length, get_elem?, set, take, replicate, write_at,
}
pub mod Parsing
pub mod Grabbing
pub mod Port
pub mod M10
pub mod Bounds
pub mod Scans
mod Tests

pub record Degrees (A : Type 0) : Type 0 where
  -- The angle of the point `i` between the raw angles at the start and the end, below 360 degrees.
  pub angle_at : ℕ → ℕ → ℕ → A
  -- The distance in metres of a raw one.
  pub metres : ℕ → A
  pub below : A → A → Bool
  pub zero_ : A

pub record ScanPoint (A : Type 0) : Type 0 where
  pub angle : A
  pub distance : A
  pub quality : ℕ

pub record LsLidarDriver (A : Type 0) : Type 0 where
  pub packet_bytes : List ℕ
  pub last_degree : A
  pub scan_index : ℕ
  pub total_bytes : ℕ
  pub scan_data : List (ScanPoint A)

-- `packet_bytes[i]`, in a buffer that is longer than what is read of it.
abbrev pub byte_at : List ℕ → ℕ → ℕ
byte_at buf i = elim (get_elem? buf i) [ none ↦ 0 | some b ↦ b ]

-- The sum of the first bytes, modulo 256.
unfoldable pub crc_of : ℕ → List ℕ → ℕ
crc_of zero buf = 0
crc_of (suc n) buf = (crc_of n buf + byte_at buf n) % 256

unfoldable pub is_packet : List ℕ → Bool
is_packet buf =
    ((byte_at buf 0 == 165) && (byte_at buf 1 == 90)) && (crc_of 57 buf == byte_at buf 57)

module _ {A : Type 0} (g : Degrees A) where
  -- `std::vector::resize`
  unfoldable pub resize : ℕ → List (ScanPoint A) → List (ScanPoint A)
  resize n xs =
      let fill : ScanPoint A = record { angle = g.zero_; distance = g.zero_; quality = 0 } in
      take n xs ++ replicate (n - length xs) fill

  -- The point `i` of a packet.
  unfoldable pub point_at : List ℕ → ℕ → ScanPoint A
  point_at buf i = record {
    angle =
        g.angle_at (byte_at buf 5 * 256 + byte_at buf 6) (byte_at buf 55 * 256 + byte_at buf 56) i;
    distance = g.metres (byte_at buf (7 + i * 3) * 256 + byte_at buf (8 + i * 3));
    quality = byte_at buf (9 + i * 3);
  }

  -- `scanData.resize( scanIndex+1 ); scanData[scanIndex] = data; ..`
  unfoldable pub put_point :
      ℕ → List (ScanPoint A) → ScanPoint A → LsLidarDriver A → LsLidarDriver A
  put_point index scan point d = record {
    packet_bytes = d.packet_bytes;
    last_degree = point.angle;
    scan_index = index + 1;
    total_bytes = d.total_bytes;
    scan_data = set (resize (index + 1) scan) index point;
  }

  -- A point is added to the scan. If its angle is below the last one, the scan before it is ready.
  unfoldable pub add_point :
      ScanPoint A
      → LsLidarDriver A × Option (List (ScanPoint A))
      → LsLidarDriver A × Option (List (ScanPoint A))
  add_point point (d, ready) =
      if ltb 0 d.scan_index && g.below point.angle d.last_degree
      then (put_point 0 [] point d, some d.scan_data)
      else (put_point d.scan_index d.scan_data point d, ready)

  -- The points from `i` on, of which `n` are left.
  unfoldable pub add_points :
      ℕ
      → ℕ
      → List ℕ
      → LsLidarDriver A × Option (List (ScanPoint A))
      → LsLidarDriver A × Option (List (ScanPoint A))
  add_points zero i buf s = s
  add_points (suc n) i buf s = add_points n (suc i) buf (add_point (point_at buf i) s)

  -- `parseDataN10`, with the scan that it makes ready
  unfoldable pub parse_data_n10 : LsLidarDriver A → LsLidarDriver A × Option (List (ScanPoint A))
  parse_data_n10 d =
      if is_packet d.packet_bytes then add_points 16 0 d.packet_bytes (d, none) else (d, none)

  -- `::read( fd, &packet_bytes[totalBytes], .. )`
  unfoldable pub receive : List ℕ → LsLidarDriver A → LsLidarDriver A
  receive bytes d = record {
    packet_bytes = write_at d.total_bytes bytes d.packet_bytes;
    last_degree = d.last_degree;
    scan_index = d.scan_index;
    total_bytes = d.total_bytes + length bytes;
    scan_data = d.scan_data;
  }

  unfoldable pub forget_bytes : LsLidarDriver A → LsLidarDriver A
  forget_bytes d = record {
    packet_bytes = d.packet_bytes;
    last_degree = d.last_degree;
    scan_index = d.scan_index;
    total_bytes = 0;
    scan_data = d.scan_data;
  }

  -- The body of the loop of `grabScanDataN10`, for the bytes that a read gives.
  unfoldable pub take_bytes :
      List ℕ → LsLidarDriver A → LsLidarDriver A × Option (List (ScanPoint A))
  take_bytes bytes d =
      let got = receive bytes d in
      let parsed = parse_data_n10 got in
      if leb 47 got.total_bytes then (forget_bytes parsed.0, parsed.1) else (got, none)

  -- `grabScanDataN10`, on the reads that there are before the time is over: the driver, the scan, and
  -- the reads that are left.
  unfoldable pub grab_scan_data_n10 :
      List (List ℕ)
      → LsLidarDriver A
      → LsLidarDriver A × Option (List (ScanPoint A)) × List (List ℕ)
  grab_scan_data_n10 [] d = (d, none, [])
  grab_scan_data_n10 ([] ∷ reads) d = (d, none, reads)
  grab_scan_data_n10 ((b ∷ bytes) ∷ reads) d =
      let taken = take_bytes (b ∷ bytes) d in
      elim taken.1 [
        | none ↦ grab_scan_data_n10 reads taken.0
        | some scan ↦ (taken.0, some scan, reads)
      ]

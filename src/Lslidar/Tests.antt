-- ===== src/Lslidar/Tests.antt =====
-- A driver of an N10 on small inputs.
use lidar.Prelude.{
  ◌↔◌, ℕ, ◌%◌, ◌+◌, ◌*◌, ◌<◌, List, [], ◌∷◌, ◌++◌, if◌then◌else◌, Option, none, some, ◌≡◌, refl,
  arith, ltb, length, replicate, take,
}
use lidar.Lslidar.{
  Degrees, ScanPoint, LsLidarDriver, take_bytes, grab_scan_data_n10, receive, forget_bytes,
  parse_data_n10, is_packet, crc_of, add_points, add_point, put_point, resize, point_at,
}
use lidar.Lslidar.Parsing.{IsWellFormed, IsScan, grab_scan_data_n10-IsWellFormed}
use lidar.Lslidar.Grabbing.{split_packet}
use lidar.Lslidar.M10.{M10Degrees, M10Driver, take_packet}
use lidar.Lslidar.Port.{readable, got, read, read_loop, wait_readable, next_read, is_readable}
use lidar.Lslidar.Bounds.{valid, take_packet-eq-none}
use lidar.Lslidar.Scans.{scans, cut_all, points, scans-parse_data_n10}

-- Angles in hundredths of a degree, where the points of a packet are 10 apart.
abbrev hundredths : Degrees ℕ
hundredths = record {
  angle_at = λ start end i. (start + i * 10) % 36000;
  metres = λ n. n;
  below = ltb;
  zero_ = 0;
}

abbrev packet : List ℕ
packet = 165 ∷ 90 ∷ (replicate 55 0 ++ 255 ∷ [])

abbrev connected : LsLidarDriver ℕ
connected = record {
  packet_bytes = replicate 120 0;
  last_degree = 0;
  scan_index = 0;
  total_bytes = 0;
  scan_data = [];
}

grab_scan_data_n10-IsWellFormed_example :
    IsWellFormed hundredths (grab_scan_data_n10 hundredths (packet ∷ packet ∷ []) connected).0
    × IsScan hundredths (grab_scan_data_n10 hundredths (packet ∷ packet ∷ []) connected).1
grab_scan_data_n10-IsWellFormed_example =
    grab_scan_data_n10-IsWellFormed hundredths (packet ∷ packet ∷ []) connected (refl, tt, refl)

points_of : Option (List (ScanPoint ℕ)) → ℕ
points_of none = 0
points_of (some scan) = length scan

-- The first of two packets is a scan when the second begins.
sixteen_points : points_of (grab_scan_data_n10 hundredths (packet ∷ packet ∷ []) connected).1 ≡ 16
unfolding points_of grab_scan_data_n10 take_bytes receive forget_bytes parse_data_n10 is_packet
    crc_of add_points add_point put_point resize point_at
sixteen_points = refl

room_left : 0 < length (take_bytes hundredths (take 50 packet) connected).0.packet_bytes
unfolding take_bytes receive forget_bytes parse_data_n10 is_packet crc_of
room_left = omega arith

split_packet_example :
    let parsed = (take_bytes hundredths (take 50 packet) connected).0 in
    let after =
      grab_scan_data_n10 hundredths ((0 ∷ 0 ∷ 0 ∷ 0 ∷ 0 ∷ 0 ∷ 0 ∷ 255 ∷ []) ∷ packet ∷ []) parsed in
    (after.1 ≡ none) × (after.0.scan_data ≡ parsed.scan_data) × (after.0.total_bytes ≡ 0)
split_packet_example =
    split_packet hundredths (take 50 packet) 0 (0 ∷ 0 ∷ 0 ∷ 0 ∷ 0 ∷ 0 ∷ 255 ∷ []) 165
      (90 ∷ (replicate 55 0 ++ 255 ∷ [])) connected refl (omega arith) refl refl refl room_left

scans-parse_data_n10_example :
    scans hundredths (parse_data_n10 hundredths (receive hundredths packet connected)) ≡ (
      if is_packet (receive hundredths packet connected).packet_bytes
      then cut_all hundredths
          (points hundredths 16 0 (receive hundredths packet connected).packet_bytes)
          ((receive hundredths packet connected).scan_data, none)
      else ((receive hundredths packet connected).scan_data, none))
unfolding receive
scans-parse_data_n10_example =
    scans-parse_data_n10 hundredths (receive hundredths packet connected) (refl, tt, refl)

abbrev plain_degrees : M10Degrees ℕ
plain_degrees = record {
  degree_of = λ raw. raw % 36000;
  sample_angle = λ degree count k. degree + k;
  metres = λ raw. raw;
  is_valid = ltb 100;
  below = ltb;
  zero_ = 0;
}

abbrev small_scan : M10Driver ℕ
small_scan = record {
  packet_bytes = replicate 200 0;
  last_degree = 0;
  scan_index = 0;
  scan_data = replicate 10 (record { angle = 0; distance = 0; quality = 0 });
  scan_data_ready = [];
}

take_packet-eq-none_example : (take_packet plain_degrees 0 small_scan ≡ none) ↔ (
    length small_scan.scan_data < small_scan.scan_index + valid 42 (0 + 6) small_scan.packet_bytes)
take_packet-eq-none_example = take_packet-eq-none plain_degrees 0 small_scan (omega arith)

-- Four bytes that come in two reads.
read_in_parts :
    read 4 30 (record {
      selects = readable ∷ readable ∷ [];
      reads = got (1 ∷ 2 ∷ []) ∷ got (3 ∷ 4 ∷ 5 ∷ []) ∷ [];
    })
    ≡ (1 ∷ 2 ∷ 3 ∷ 4 ∷ [], some 4, record { selects = []; reads = got (5 ∷ []) ∷ [] })
unfolding read read_loop wait_readable next_read is_readable
read_in_parts = refl

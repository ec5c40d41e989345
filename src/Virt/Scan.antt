-- ===== src/Virt/Scan.antt =====
-- `LidarScanData`: one scan put together from its packets. `none` is undefined behaviour: a division
-- by zero, or an access outside of a vector. `Lidar::error` only prints, so the code goes on behind it.
pub mod Packet
pub mod Slice
pub mod Assembly
use lidar.Prelude.{
  ℕ, zero, suc, ◌+◌, ◌*◌, ◌/◌, ◌%◌, Bool, true, false, ◌&&◌, ◌||◌, List, [], ◌∷◌, Option, none,
  some, ltb, leb, ◌==◌, if◌then◌else◌, length, set, take, replicate, write_at,
}
use lidar.Virt.Message.{LidarRawSample, LidarScanHeader, ScanMsg, nodes_in_packet}

pub record LidarScanData : Type 0 where
  pub seq_nr : ℕ
  pub nodes : List LidarRawSample
  pub packets_received : List Bool

unfoldable pub lidar_scan_data : ℕ → LidarScanData
lidar_scan_data seq_nr = record { seq_nr = seq_nr; nodes = []; packets_received = [] }

unfoldable pub all_received : List Bool → Bool
all_received [] = true
all_received (b ∷ bs) = b && all_received bs

unfoldable pub complete : LidarScanData → Bool
complete d = if length d.packets_received == 0 then false else all_received d.packets_received

-- `nodes.resize` value-initialises the new samples.
abbrev pub zero_sample : LidarRawSample
zero_sample = record { angle_z_q14 = 0; dist_mm_q2 = 0; quality = 0 }

-- `numPackets` in `addData`: the packets that a scan of this header has.
unfoldable pub expected_packets : LidarScanHeader → ℕ
expected_packets h =
    let packets = h.total_nodes / h.nodes_per_packet in
    if packets == 0 || ltb 0 (h.total_nodes % h.nodes_per_packet) then packets + 1 else packets

-- `addData` up to the first access: the vectors are made at the first packet.
unfoldable pub init_data : LidarScanData → LidarScanHeader → ℕ → LidarScanData
init_data d h packets =
    if length d.packets_received == 0
    then record {
      seq_nr = h.seq_nr;
      nodes = replicate h.total_nodes zero_sample;
      packets_received = replicate packets false;
    }
    else d

-- The copy at the end of `addData`. The two tests of the sizes only print.
unfoldable pub copy_samples : LidarScanData → ScanMsg → Option LidarScanData
copy_samples d msg =
    let h = msg.header in
    let count = nodes_in_packet h.packet_id h.nodes_per_packet h.total_nodes in
    if count == 0
    then some d
    else if leb count (length msg.samples)
        && leb (h.packet_id * h.nodes_per_packet + count) (length d.nodes)
    then some (record d {
      nodes = write_at (h.packet_id * h.nodes_per_packet) (take count msg.samples) d.nodes;
    })
    else none

unfoldable pub add_data : LidarScanData → ScanMsg → Option LidarScanData
add_data d msg =
    let h = msg.header in
    let packets = expected_packets h in
    if h.nodes_per_packet == 0
    then none
    else if leb packets h.packet_id
    then some d
    else let d' = init_data d h packets in
      if leb (length d'.packets_received) h.packet_id
      then none
      else copy_samples (record d' { packets_received = set d'.packets_received h.packet_id true })
          msg

-- The packets of one scan, in the order of their arrival.
unfoldable pub add_all : LidarScanData → List ScanMsg → Option LidarScanData
add_all d [] = some d
add_all d (m ∷ ms) = elim (add_data d m) [ none ↦ none | some d' ↦ add_all d' ms ]

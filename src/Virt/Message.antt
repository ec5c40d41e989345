-- ===== src/Virt/Message.antt =====
-- The datagrams of the virtual driver: `LidarVirtualHeader` to `LidarScanMsg`, and the samples
-- of include/lidarVirtDriver.h. A datagram is kept as the fields that the two ends read from its
-- bytes, each cut to the width of its member.
use lidar.Prelude.{
  ℕ, ◌+◌, ◌*◌, ◌/◌, ◌%◌, ◌^◌, ◌||◌, List, [], ◌∷◌, ◌++◌, Option, none, some, ltb, ◌==◌,
  if◌then◌else◌, take, drop,
}

pub record LidarRawSample : Type 0 where
  pub angle_z_q14 : ℕ
  pub dist_mm_q2 : ℕ
  pub quality : ℕ

-- `MSG_SCAN_DATA` and `MSG_ENV_DATA`, the two types of datagram with a scan in it.
pub data ScanType : Type 0 where
  scan_data env_data : ScanType

-- `_u64 seqNr; _u8 packetId; _u8 nodesPerPacket; _u16 totalNodes;`
pub record LidarScanHeader : Type 0 where
  pub type : ScanType
  pub seq_nr : ℕ
  pub packet_id : ℕ
  pub nodes_per_packet : ℕ
  pub total_nodes : ℕ

-- The constructor narrows its `int` arguments to the members' types.
unfoldable pub lidar_scan_header : ScanType → ℕ → ℕ → ℕ → ℕ → LidarScanHeader
lidar_scan_header type seq_nr packet_id nodes_per_packet total_nodes = record {
  type = type;
  seq_nr = seq_nr % 2 ^ 64;
  packet_id = packet_id % 2 ^ 8;
  nodes_per_packet = nodes_per_packet % 2 ^ 8;
  total_nodes = total_nodes % 2 ^ 16;
}

-- A scan datagram: its header, and the whole samples in the bytes behind the header.
pub record ScanMsg : Type 0 where
  pub header : LidarScanHeader
  pub samples : List LidarRawSample

-- `nodesInPacket`, which the sender and `addData` compute alike.
unfoldable pub nodes_in_packet : ℕ → ℕ → ℕ → ℕ
nodes_in_packet packet_id nodes_per_packet total_nodes =
    if ltb total_nodes ((packet_id + 1) * nodes_per_packet)
    then total_nodes % nodes_per_packet
    else nodes_per_packet

-- `LidarScanMsg`: the samples from `packetId*nodesPerPacket` on are copied behind the header.
unfoldable pub lidar_scan_msg : ScanType → ℕ → ℕ → ℕ → ℕ → List LidarRawSample → ScanMsg
lidar_scan_msg type seq_nr packet_id nodes_per_packet total_nodes nodes = record {
  header = lidar_scan_header type seq_nr packet_id nodes_per_packet total_nodes;
  samples =
      take (nodes_in_packet packet_id nodes_per_packet total_nodes)
        (drop (packet_id * nodes_per_packet) nodes);
}

-- The number of packets that a scan of `count` samples takes, as `sendScanData` computes it.
unfoldable pub num_packets : ℕ → ℕ → ℕ
num_packets count nodes_per_packet =
    if count == 0 || ltb 0 (count % nodes_per_packet)
    then count / nodes_per_packet + 1
    else count / nodes_per_packet

-- What arrives on the socket. `runt` is a datagram that ends before the header of its type does,
-- down to the empty one; `other` has a type that the driver does not know. `cmd` has the bytes behind
-- its header.
pub data Datagram : Type 0 where
  runt : Datagram
  other : Datagram
  cmd : List ℕ → Datagram
  scan : ScanMsg → Datagram

-- `LidarCmdMsg`: the command's bytes with the NUL that ends them.
unfoldable pub lidar_cmd_msg : List ℕ → Datagram
lidar_cmd_msg text = cmd (text ++ 0 ∷ [])

-- The C string at the start of a buffer; `none` if no NUL stands in it.
unfoldable pub c_string : List ℕ → Option (List ℕ)
c_string [] = none
c_string (b ∷ bs) =
    let rest = c_string bs in
    if b == 0 then some [] else elim rest [ none ↦ none | some s ↦ some (b ∷ s) ]

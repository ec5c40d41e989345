-- ===== src/Virt/Scan/Packet.antt =====
-- What `addData` does with one packet, and where the samples of a packet lie in the scan.
use lidar.Prelude.{
  ℕ, zero, suc, ◌+◌, ◌*◌, ◌/◌, ◌≤◌, ◌<◌, Bool, true, false, List, [], ◌∷◌, some, ◌≡◌, ◌≢◌, refl,
  arith, ltb, length, get_elem?, set, take, write_at, length-replicate, write_at_nil,
}
use lidar.Virt.Message.{LidarScanHeader, ScanMsg, nodes_in_packet, num_packets}
use lidar.Virt.Scan.{
  LidarScanData, all_received, init_data, copy_samples, add_data, expected_packets,
}

pub all_received_get :
    (bs : List Bool) (i : ℕ) → all_received bs ≡ true → i < length bs → get_elem? bs i ≡ some true
unfolding all_received
all_received_get [] i h l = absurd (omega arith)
all_received_get (b ∷ bs) zero h l = ground arith
all_received_get (b ∷ bs) (suc i) h l = ground (arith, all_received_get bs i)

pub all_received_of :
    (bs : List Bool)
    → ((i : ℕ) → i < length bs → get_elem? bs i ≡ some true)
    → all_received bs ≡ true
unfolding all_received
all_received_of [] h = refl
all_received_of (b ∷ bs) h =
    ground (arith, h 0 (omega arith), all_received_of bs (λ i l. h (suc i) (omega arith)))

-- Where packet `i` starts and ends among `n` samples.
pub packet_range :
    (i n : ℕ)
    → i < num_packets n 128
    → (i * 128 + nodes_in_packet i 128 n ≤ n) × (i * 128 + nodes_in_packet i 128 n ≤ (i + 1) * 128)
unfolding num_packets nodes_in_packet
packet_range i n h = ground arith

pub packet_holds :
    (i j n : ℕ)
    → i < num_packets n 128
    → j < n
    → i ≡ j / 128
    → j < i * 128 + nodes_in_packet i 128 n
unfolding num_packets nodes_in_packet
packet_holds i j n h l e = ground arith

pub packets-le : (n : ℕ) → n ≤ 32768 → num_packets n 128 ≤ 256
unfolding num_packets
packets-le n h = ground arith

pub packets_pos : (n : ℕ) → 0 < num_packets n 128
unfolding num_packets
packets_pos n = ground arith

pub index_packet : (j n : ℕ) → j < n → j / 128 < num_packets n 128
unfolding num_packets
index_packet j n h = ground arith

pub expected_packets_lem :
    (h : LidarScanHeader)
    → h.nodes_per_packet ≡ 128
    → expected_packets h ≡ num_packets h.total_nodes 128
unfolding expected_packets num_packets
expected_packets_lem h e = rw e (ground arith)

pub init_data_again :
    (d : LidarScanData) (h : LidarScanHeader) (n : ℕ)
    → 0 < length d.packets_received
    → init_data d h n ≡ d
unfolding init_data
init_data_again d h n l = ground arith

pub copy_samples_fits :
    (d : LidarScanData) (m : ScanMsg) (c : ℕ)
    → nodes_in_packet m.header.packet_id m.header.nodes_per_packet m.header.total_nodes ≡ c
    → c ≤ length m.samples
    → m.header.packet_id * m.header.nodes_per_packet + c ≤ length d.nodes
    → copy_samples d m
      ≡ some (record d {
        nodes =
            write_at (m.header.packet_id * m.header.nodes_per_packet) (take c m.samples) d.nodes;
      })
unfolding copy_samples
copy_samples_fits d m zero e s t =
    rw e (ground (arith, write_at_nil (m.header.packet_id * m.header.nodes_per_packet) d.nodes))
copy_samples_fits d m (suc c) e s t = rw e (ground arith)

-- What `addData` makes of a packet that fits.
pub add_data_fits :
    (d : LidarScanData) (m : ScanMsg) (c : ℕ)
    → m.header.nodes_per_packet ≡ 128
    → m.header.packet_id < num_packets m.header.total_nodes 128
    → m.header.packet_id < length d.packets_received
    → nodes_in_packet m.header.packet_id m.header.nodes_per_packet m.header.total_nodes ≡ c
    → c ≤ length m.samples
    → m.header.packet_id * m.header.nodes_per_packet + c ≤ length d.nodes
    → add_data d m
      ≡ some (record d {
        packets_received = set d.packets_received m.header.packet_id true;
        nodes =
            write_at (m.header.packet_id * m.header.nodes_per_packet) (take c m.samples) d.nodes;
      })
unfolding add_data
add_data_fits d m c e l r k s t = ground (
  arith,
  expected_packets_lem m.header e,
  init_data_again d m.header (expected_packets m.header),
  copy_samples_fits (record d { packets_received = set d.packets_received m.header.packet_id true })
      m c k s t,
)

pub packet_ends : (i j : ℕ) → ltb j (i * 128) ≡ false → j / 128 ≢ i → (i + 1) * 128 ≤ j
packet_ends i j h q = ground arith

pub init_data_twice :
    (d : LidarScanData) (h : LidarScanHeader) (n : ℕ)
    → 0 < n
    → init_data (init_data d h n) h n ≡ init_data d h n
unfolding init_data
init_data_twice d h n l = ground (arith, length-replicate n false)

-- The first packet makes the vectors, and nothing else depends on their having been empty.
pub add_data_init :
    (d : LidarScanData) (m : ScanMsg)
    → m.header.packet_id < expected_packets m.header
    → add_data d m ≡ add_data (init_data d m.header (expected_packets m.header)) m
unfolding add_data
add_data_init d m l =
    ground (arith, init_data_twice d m.header (expected_packets m.header) (omega arith))

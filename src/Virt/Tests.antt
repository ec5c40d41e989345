-- ===== src/Virt/Tests.antt =====
-- The driver on small inputs.
use lidar.Prelude.{
  if◌then◌else◌, ℕ, ◌*◌, ◌%◌, ◌^◌, ◌≤◌, true, false, List, [], ◌∷◌, ◌++◌, some, none, ◌≡◌, refl,
  arith, replicate, map, length, get_elem?,
}
use lidar.Virt.Message.{LidarRawSample, Datagram, scan_data, cmd, num_packets, c_string}
use lidar.Virt.Scan.{LidarScanData, lidar_scan_data, complete, add_all, all_received}
use lidar.Virt.Scan.Assembly.{packet, add_all_covers}
use lidar.Virt.ScanList.Order.{Ascends, find, asked, is_dropped, get_scan_data_lem}
use lidar.Virt.ScanList.Grab.{
  newest, incomplete, samples_of, number_of, failures_of, is_some, grab_scan_data_latest,
  grab_scan_data_restart,
}
use lidar.Virt.ScanList.{LidarScanDataList, get_scan_data, grab_scan_data}
use lidar.Virt.Driver.{LidarVirtualDriver, codes}
use lidar.Virt.Driver.Sending.{mailed}
use lidar.Virt.Update.Replies.{replies, addressed, on_packet-replies}
use lidar.Virt.Update.Transfer.{transfer}
use lidar.Virt.Update.{on_connect, on_cmd, on_datagram, greet, on_packet, receive_all}

abbrev sample : ℕ → LidarRawSample
sample n = record { angle_z_q14 = n; dist_mm_q2 = 4 * n; quality = 47 }

-- A scan of two packets, the second one with two samples.
abbrev two_packets : List LidarRawSample
two_packets = replicate 129 (sample 3) ++ sample 9 ∷ []

add_all_covers_example :
    (d : LidarScanData) × (add_all
        (lidar_scan_data (7 % 2 ^ 64))
        (map (packet scan_data 7 two_packets) (1 ∷ 0 ∷ 1 ∷ []))
      ≡ some d)
    × (complete d ≡ true)
    × (d.nodes ≡ two_packets)
    × (d.seq_nr ≡ 7 % 2 ^ 64)
unfolding num_packets
add_all_covers_example =
    add_all_covers scan_data 7 two_packets 1 (0 ∷ 1 ∷ []) (omega arith) (omega arith)
      (λ k h. ground arith)

abbrev half : ℕ → LidarScanData
half n = record { seq_nr = n; nodes = sample 1 ∷ []; packets_received = true ∷ false ∷ [] }

abbrev whole : ℕ → LidarScanData
whole n = record { seq_nr = n; nodes = sample n ∷ []; packets_received = true ∷ [] }

abbrev three : List LidarScanData
three = whole 4 ∷ half 6 ∷ whole 9 ∷ []

get_scan_data_example :
    (get_elem? (get_scan_data 7 three).0 (get_scan_data 7 three).1 ≡ some (asked 7 (find 7 three)))
    × Ascends 0 (get_scan_data 7 three).0
    × (length (get_scan_data 7 three).0 ≤ 17)
    × (find 6 (get_scan_data 7 three).0 ≡ (if is_dropped 7 6 three then none else find 6 three))
get_scan_data_example = get_scan_data_lem 7 6 three (omega arith) (omega arith) (omega arith)

abbrev received : LidarScanDataList
received = record { scans = three; current_seq_nr = 2; seq_failure_count = 4 }

grab_scan_data_latest_example :
    ((grab_scan_data true received []).1 ≡ is_some (newest three))
    × ((grab_scan_data true received []).2 ≡ samples_of (newest three) [])
    × ((grab_scan_data true received []).0.current_seq_nr ≡ number_of (newest three) 2)
    × ((grab_scan_data true received []).0.scans ≡ incomplete three)
    × ((grab_scan_data true received []).0.seq_failure_count ≡ failures_of (newest three) 4)
grab_scan_data_latest_example = grab_scan_data_latest received [] (omega arith)

abbrev restarted : LidarScanDataList
restarted = record { scans = whole 1 ∷ whole 2 ∷ []; current_seq_nr = 500; seq_failure_count = 13 }

grab_scan_data_restart_example :
    grab_scan_data true restarted []
    ≡ (record { scans = []; current_seq_nr = 2; seq_failure_count = 0 }, true, sample 2 ∷ [])
unfolding complete all_received
grab_scan_data_restart_example =
    grab_scan_data_restart true restarted (whole 1 ∷ []) (whole 2) [] refl
      (refl, omega arith, (refl, omega arith, tt)) (omega arith)

abbrev device : LidarVirtualDriver
device = record {
  udp_socket = record {
    is_ok = true;
    has_hostname = true;
    accepts = true;
    remote_addr = some 8;
    inbox = [];
    sent = [];
  };
  port = 8090;
  cmd_queue = [];
  scan_data_list = record { scans = []; current_seq_nr = 0; seq_failure_count = 0 };
  env_data_list = record { scans = []; current_seq_nr = 0; seq_failure_count = 0 };
  motor_state = none;
  power_up_state = some true;
  is_in_device = false;
  last_remote_addr = none;
  device_status_sent = false;
  is_open = false;
  seq_nr = 6;
  last_recv_time = 0;
  connect_time = 0;
}

transfer_example :
    (r : LidarVirtualDriver) × (receive_all 40
        (mailed 8 (map (packet scan_data 7 two_packets) (1 ∷ 0 ∷ [])))
        device
      ≡ some r)
    × ((grab_scan_data true r.scan_data_list []).1 ≡ true)
    × ((grab_scan_data true r.scan_data_list []).2 ≡ two_packets)
    × ((grab_scan_data true r.scan_data_list []).0.scans ≡ [])
unfolding num_packets
transfer_example =
    transfer 7 two_packets (omega arith) 1 (0 ∷ []) 40 8 device [] (omega arith)
      (λ k h. ground arith) refl (omega arith)

abbrev connect_msg : Datagram
connect_msg = cmd (codes "connect" ++ 0 ∷ [])

after_connect : LidarVirtualDriver
unfolding on_connect
after_connect = greet (
    on_cmd
      (record device {
        udp_socket = record device.udp_socket { remote_addr = some 9 };
        last_recv_time = 40;
      })
      (codes "connect"))

on_packet-replies_example :
    (after_connect.udp_socket.sent ≡ addressed 9 (replies device 9 connect_msg))
    × (after_connect.last_remote_addr ≡ some 9)
unfolding after_connect on_packet on_datagram c_string
on_packet-replies_example = on_packet-replies 40 device 9 connect_msg after_connect refl refl

-- ===== src/Virt/Driver.antt =====
-- `LidarVirtualDriver`: the two ends of a virtual sensor. The socket of include/UDP.hh is seen as the
-- peer's address, the datagrams that wait to be received, and those that were handed to `sendto` or
-- `send`, whether or not these calls succeeded, which `accepts` says; the name lookups stand as `has_hostname`. An address is
-- a number, and `none` the empty one. The result `none` of an operation is undefined behaviour.
pub mod Sending
use Prim.Native.Char.{code}
use Prim.Native.String.{String}
use lidar.Prelude.{
  ℕ, zero, suc, ◌+◌, ◌-◌, ◌%◌, ◌/◌, ◌^◌, Bool, true, false, not, ◌&&◌, ◌||◌, List, [], ◌∷◌, ◌++◌,
  Option, none, some, ltb, ◌==◌, if◌then◌else◌, length,
}
use lidar.Virt.Message.{
  LidarRawSample, ScanType, scan_data, env_data, ScanMsg, Datagram, runt, other, cmd, scan,
  lidar_cmd_msg, lidar_scan_msg, num_packets, c_string,
}
use lidar.Virt.ScanList.{LidarScanDataList, lidar_scan_data_list, receive_packet, grab_scan_data}

pub record UdpSocket : Type 0 where
  pub is_ok : Bool
  pub has_hostname : Bool
  pub accepts : Bool
  pub remote_addr : Option ℕ
  pub inbox : List (ℕ × Datagram)
  pub sent : List (ℕ × Datagram)

-- `motorState` and `powerUpState` are -1, 0 or 1 in the source: `none`, `some false`, `some true`.
pub record LidarVirtualDriver : Type 0 where
  pub udp_socket : UdpSocket
  pub port : ℕ
  pub cmd_queue : List (List ℕ)
  pub scan_data_list : LidarScanDataList
  pub env_data_list : LidarScanDataList
  pub motor_state : Option Bool
  pub power_up_state : Option Bool
  pub is_in_device : Bool
  pub last_remote_addr : Option ℕ
  pub device_status_sent : Bool
  pub is_open : Bool
  pub seq_nr : ℕ
  pub last_recv_time : ℕ
  pub connect_time : ℕ

-- The code points of a text: its bytes, if it is ASCII.
abbrev pub codes : String → List ℕ
codes String.[] = []
codes (String.◌∷◌ c s) = code c ∷ codes s

-- `strcmp(a,b) == 0`
unfoldable pub same_text : List ℕ → List ℕ → Bool
same_text [] [] = true
same_text (x ∷ xs) (y ∷ ys) = x == y && same_text xs ys
same_text _ _ = false

unfoldable pub same_addr : Option ℕ → Option ℕ → Bool
same_addr none none = true
same_addr (some a) (some b) = a == b
same_addr _ _ = false

-- `UdpSocket::sendPacket` to the peer `addr`.
unfoldable pub send_packet : ℕ → UdpSocket → Datagram → UdpSocket × Bool
send_packet addr s m =
    if s.is_ok then (record s { sent = s.sent ++ (addr, m) ∷ [] }, s.accepts) else (s, false)

-- `send`
unfoldable pub send : LidarVirtualDriver → Datagram → LidarVirtualDriver × Bool
send d m = elim d.udp_socket.remote_addr [
  | none ↦ (d, false)
  | some addr ↦
      let (s, done) = send_packet addr d.udp_socket m in (record d { udp_socket = s }, done)
]

unfoldable pub send_cmd : LidarVirtualDriver → List ℕ → LidarVirtualDriver × Bool
send_cmd d text = elim d.udp_socket.remote_addr [
  | none ↦ (d, false)
  | some addr ↦ send d (lidar_cmd_msg text)
]

unfoldable pub send_connect : LidarVirtualDriver → LidarVirtualDriver × Bool
send_connect d =
    send_cmd (record d { last_remote_addr = d.udp_socket.remote_addr; device_status_sent = false })
      (codes "connect")

-- The message itself is switched off by a `return` in front of it.
unfoldable pub send_connect_acknowledge : LidarVirtualDriver → LidarVirtualDriver × Bool
send_connect_acknowledge d =
    (record d { last_remote_addr = d.udp_socket.remote_addr; device_status_sent = false }, false)

-- `sendMotorState`, switched off by its first statement; `sendStatus` calls it and nothing else.
unfoldable pub send_motor_state : LidarVirtualDriver → LidarVirtualDriver × Bool
send_motor_state d = (d, false)

unfoldable pub send_status : LidarVirtualDriver → LidarVirtualDriver × Bool
send_status d = send_motor_state d

unfoldable pub send_power_up_state : LidarVirtualDriver → LidarVirtualDriver × Bool
send_power_up_state d = if d.is_in_device then (d, false) else elim d.power_up_state [
  | none ↦ (d, false)
  | some on ↦
      let (d', done) = send_cmd d (codes (if on then "startPowerUp" else "finishPowerUp")) in
      (record d' { power_up_state = none }, done)
]

unfoldable pub send_device_type :
    LidarVirtualDriver → List ℕ → List ℕ → Bool → LidarVirtualDriver × Bool
send_device_type d device_type sensor_in power_supported =
    if d.is_in_device
    then (d, false)
    else let text =
        codes "deviceType="
        ++ (device_type
            ++ (codes " sensorIN="
                ++ (sensor_in
                    ++ (codes " sensorPowerSupported="
                        ++ codes (if power_supported then "true" else "false"))))) in
      send_cmd (record d { device_status_sent = true }) text

unfoldable pub send_use_out_env : LidarVirtualDriver → Bool → LidarVirtualDriver × Bool
send_use_out_env d on = send_cmd d (codes (if on then "outEnvOn" else "outEnvOff"))

-- `setMotorState` and `setUSBPower`
unfoldable pub set_motor_state : LidarVirtualDriver → Bool → LidarVirtualDriver × Bool
set_motor_state d on = send_motor_state (record d { motor_state = some on })

unfoldable pub set_usb_power : LidarVirtualDriver → Bool → LidarVirtualDriver × Bool
set_usb_power d on = send_power_up_state (record d { power_up_state = some on })

abbrev pub nodes_per_packet : ℕ
nodes_per_packet = 128

-- The loop of `sendScanData` over the packets from `i` on, `rounds` of them.
unfoldable pub send_packets :
    ScanType → List LidarRawSample → ℕ → ℕ → LidarVirtualDriver → Bool → LidarVirtualDriver × Bool
send_packets type nodes zero i d success = (d, success)
send_packets type nodes (suc rounds) i d success =
    let msg = lidar_scan_msg type d.seq_nr i nodes_per_packet (length nodes) nodes in
    let (d', done) = send d (scan msg) in
    send_packets type nodes rounds (i + 1) d' (done && success)

-- `sendScanData` and `sendEnvData`; `seqNr` is a `_u64`.
unfoldable pub send_scan_data :
    ScanType → LidarVirtualDriver → List LidarRawSample → LidarVirtualDriver × Bool
send_scan_data type d nodes = elim d.udp_socket.remote_addr [
  | none ↦ (d, false)
  | some addr ↦
      send_packets type nodes (num_packets (length nodes) nodes_per_packet) 0
        (record d { seq_nr = (d.seq_nr + 1) % 2 ^ 64 }) true
]

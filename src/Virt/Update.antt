-- ===== src/Virt/Update.antt =====
-- `LidarVirtualDriver::update`: the datagrams that wait on the socket are received and acted upon, and a
-- silent peer is called again; then what was received is handed out.
pub mod Commands
pub mod Replies
pub mod Transfer
use lidar.Prelude.{
  ℕ, suc, ◌+◌, ◌-◌, ◌%◌, ◌^◌, Bool, true, false, not, ◌&&◌, List, [], ◌∷◌, ◌++◌, Option, none, some,
  ltb, ◌==◌, if◌then◌else◌,
}
use lidar.Virt.Message.{
  LidarRawSample, scan_data, env_data, ScanMsg, Datagram, runt, other, cmd, scan, c_string,
}
use lidar.Virt.ScanList.{receive_packet, grab_scan_data}
use lidar.Virt.Driver.{
  UdpSocket, LidarVirtualDriver, codes, same_text, same_addr, send_connect,
  send_connect_acknowledge, send_motor_state, send_power_up_state,
}

-- A command, as `update` treats it before it is queued.
unfoldable pub on_connect : LidarVirtualDriver → LidarVirtualDriver
on_connect d =
    let d1 = if d.is_in_device then (send_motor_state d).0 else (send_power_up_state d).0 in
    let l = record d1.scan_data_list { current_seq_nr = 0 } in
    (send_connect_acknowledge (record d1 { scan_data_list = l })).0

unfoldable pub on_cmd : LidarVirtualDriver → List ℕ → LidarVirtualDriver
on_cmd d text =
    let d' = if same_text text (codes "connect") then on_connect d else d in
    record d' { cmd_queue = d'.cmd_queue ++ text ∷ [] }

-- A scan datagram. A count of samples below 500000 is all that a `_u16` can hold.
unfoldable pub on_scan : LidarVirtualDriver → ScanMsg → Option LidarVirtualDriver
on_scan d m =
    if ltb 0 m.header.nodes_per_packet && ltb m.header.total_nodes 500000
    then elim m.header.type [
      | scan_data ↦ elim (receive_packet d.scan_data_list m) [
        | none ↦ none
        | some l ↦ some (record d { scan_data_list = l })
      ]
      | env_data ↦ elim (receive_packet d.env_data_list m) [
        | none ↦ none
        | some l ↦ some (record d { env_data_list = l })
      ]
    ]
    else some d

unfoldable pub on_datagram : LidarVirtualDriver → Datagram → Option LidarVirtualDriver
on_datagram d runt = none
on_datagram d other = some d
on_datagram d (cmd bytes) = elim (c_string bytes) [ none ↦ none | some text ↦ some (on_cmd d text) ]
on_datagram d (scan m) = on_scan d m

-- The end of a round: a peer that is not the last one is sent a `connect`.
unfoldable pub greet : LidarVirtualDriver → LidarVirtualDriver
greet d = elim d.udp_socket.remote_addr [
  | none ↦ d
  | some addr ↦ if same_addr d.last_remote_addr (some addr) then d else (send_connect d).0
]

-- One round of the loop in `update`, on the datagram that `receiveNextPacket` took from `addr`.
unfoldable pub on_packet : ℕ → LidarVirtualDriver → ℕ → Datagram → Option LidarVirtualDriver
on_packet now d addr m =
    let s = record d.udp_socket { remote_addr = some addr } in
    elim (on_datagram (record d { udp_socket = s; last_recv_time = now }) m) [
      | none ↦ none
      | some d' ↦ some (greet d')
    ]

-- The loop `while ( success )` over what waits on the socket.
unfoldable pub receive_all :
    ℕ → List (ℕ × Datagram) → LidarVirtualDriver → Option LidarVirtualDriver
receive_all now [] d = some d
receive_all now ((addr, m) ∷ ms) d = elim (on_packet now d addr m) [
  | none ↦ none
  | some d' ↦ receive_all now ms d'
]

-- What `update` does when the loop is over; the times are `uint64_t`.
unfoldable pub keep_alive : ℕ → LidarVirtualDriver → LidarVirtualDriver
keep_alive now d =
    if not d.is_open && d.udp_socket.has_hostname
    then (if ltb 1000 ((now + 2 ^ 64 - d.last_recv_time) % 2 ^ 64)
          && ltb 1000 ((now + 2 ^ 64 - d.connect_time) % 2 ^ 64)
        then record (send_connect d).0 { connect_time = now }
        else d)
    else d

-- `UdpSocket::connectTo`, which opens the socket by calls of the system.
module _ (connect_to : ℕ → UdpSocket → UdpSocket × Bool) where
  -- `update`: every datagram that waits is received, then the peer is called if it is silent.
  unfoldable pub update : ℕ → LidarVirtualDriver → Option LidarVirtualDriver
  update now d =
      let down = not d.udp_socket.is_ok && d.udp_socket.has_hostname && not (d.port == 0) in
      let (s, opened) = connect_to d.port d.udp_socket in
      let d1 = if down then record d { udp_socket = s } else d in
      if down && not opened
      then some d1
      else let waiting = if d1.udp_socket.is_ok then d1.udp_socket.inbox else [] in
        let rest = if d1.udp_socket.is_ok then [] else d1.udp_socket.inbox in
        let d2 = record d1 { udp_socket = record d1.udp_socket { inbox = rest } } in
        elim (receive_all now waiting d2) [ none ↦ none | some d3 ↦ some (keep_alive now d3) ]

  -- `grabScanData`
  unfoldable pub grab_scan :
      ℕ
      → Bool
      → LidarVirtualDriver
      → List LidarRawSample
      → Option (LidarVirtualDriver × Bool × List LidarRawSample)
  grab_scan now latest d nodes = elim (update now d) [
    | none ↦ none
    | some d' ↦
        let (l, success, nodes') = grab_scan_data latest d'.scan_data_list nodes in
        some (record d' { scan_data_list = l }, success, nodes')
  ]

-- `grabEnvData`
unfoldable pub grab_env :
    LidarVirtualDriver → List LidarRawSample → LidarVirtualDriver × Bool × List LidarRawSample
grab_env d nodes =
    let (l, success, nodes') = grab_scan_data true d.env_data_list nodes in
    (record d { env_data_list = l }, success, nodes')

-- `getNextCmd`; the empty text stands for an empty queue.
unfoldable pub get_next_cmd : LidarVirtualDriver → LidarVirtualDriver × List ℕ
get_next_cmd d = elim d.cmd_queue [
  | [] ↦ (d, [])
  | text ∷ rest ↦ (record d { cmd_queue = rest }, text)
]

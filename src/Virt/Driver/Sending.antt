-- ===== src/Virt/Driver/Sending.antt =====
-- What `sendScanData` puts on the network.
use mathlib.Core.List.{append-nil, append_assoc}
use lidar.Prelude.{
  ℕ, zero, suc, ◌+◌, ◌%◌, ◌^◌, Bool, true, ◌&&◌, List, [], ◌∷◌, ◌++◌, some, ◌≡◌, refl, sym, ◌∙◌,
  arith, map, length,
}
use lidar.Virt.Message.{LidarRawSample, ScanType, ScanMsg, Datagram, scan, num_packets}
use lidar.Virt.Scan.Assembly.{packet}
use lidar.Virt.Driver.{LidarVirtualDriver, send_packet, send, send_packets, send_scan_data}

-- The ids of `rounds` packets from `i` on.
abbrev pub ids_from : ℕ → ℕ → List ℕ
ids_from i zero = []
ids_from i (suc rounds) = i ∷ ids_from (i + 1) rounds

-- Scan datagrams with the address of the other end.
abbrev pub mailed : ℕ → List ScanMsg → List (ℕ × Datagram)
mailed addr [] = []
mailed addr (m ∷ ms) = (addr, scan m) ∷ mailed addr ms

send-open :
    (d : LidarVirtualDriver) (addr : ℕ) (m : Datagram)
    → d.udp_socket.remote_addr ≡ some addr
    → d.udp_socket.is_ok ≡ true
    → send d m ≡ (
      record d { udp_socket = record d.udp_socket { sent = d.udp_socket.sent ++ (addr, m) ∷ [] } },
      d.udp_socket.accepts,
    )
unfolding send send_packet
send-open d addr m h o = ground arith

send_packets-sent :
    (type : ScanType) (nodes : List LidarRawSample) (rounds i addr : ℕ) (d : LidarVirtualDriver)
    (success : Bool)
    → d.udp_socket.remote_addr ≡ some addr
    → d.udp_socket.is_ok ≡ true
    → ((send_packets type nodes rounds i d success).0.udp_socket.sent
        ≡ d.udp_socket.sent ++ mailed addr (map (packet type d.seq_nr nodes) (ids_from i rounds)))
      × ((send_packets type nodes rounds i d success).0.seq_nr ≡ d.seq_nr)
unfolding send_packets
send_packets-sent type nodes zero i addr d success h o = (sym (append-nil d.udp_socket.sent), refl)
send_packets-sent type nodes (suc rounds) i addr d success h o =
    let m = packet type d.seq_nr nodes i in
    let d' = record d {
      udp_socket = record d.udp_socket { sent = d.udp_socket.sent ++ (addr, scan m) ∷ [] };
    } in
    let later =
      send_packets-sent type nodes rounds (i + 1) addr d' (d.udp_socket.accepts && success) h o in
    rw (send_packets, send-open d addr (scan m) h o)
      (later.0 ∙ append_assoc d.udp_socket.sent ((addr, scan m) ∷ []) _, later.1)

-- With a peer and a working socket, `sendScanData` gives the scan the next number and sends its
-- packets to the peer, each once and in order, behind what was sent before.
send_scan_data-sent :
    (type : ScanType) (d : LidarVirtualDriver) (nodes : List LidarRawSample) (addr : ℕ)
    → d.udp_socket.is_ok ≡ true
    → d.udp_socket.remote_addr ≡ some addr
    → ((send_scan_data type d nodes).0.udp_socket.sent
        ≡ d.udp_socket.sent
          ++ mailed addr (
              map
                (packet type ((d.seq_nr + 1) % 2 ^ 64) nodes)
                (ids_from 0 (num_packets (length nodes) 128))))
      × ((send_scan_data type d nodes).0.seq_nr ≡ (d.seq_nr + 1) % 2 ^ 64)
unfolding send_scan_data
send_scan_data-sent type d nodes addr o h =
    let numbered = record d { seq_nr = (d.seq_nr + 1) % 2 ^ 64 } in
    let all =
      send_packets-sent type nodes (num_packets (length nodes) 128) 0 addr numbered true h o in
    rw (send_scan_data, h) all

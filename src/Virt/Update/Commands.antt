-- ===== src/Virt/Update/Commands.antt =====
-- What the two ends answer to what they receive: the commands reach the queue in their order, and a
-- `connect` is never answered by a `connect`.
use lidar.Prelude.{
  ℕ, Bool, true, false, List, [], ◌∷◌, ◌++◌, Option, none, some, ◌≡◌, refl, arith, if◌then◌else◌,
  Option-cases, inl, inr,
}
use mathlib.Core.List.{append_assoc}
use lidar.Virt.Message.{Datagram, runt, other, cmd, scan, ScanMsg, lidar_cmd_msg, c_string}
use lidar.Virt.Driver.{
  LidarVirtualDriver, codes, same_addr, send_packet, send, send_cmd, send_connect, send_motor_state,
  send_power_up_state, send_connect_acknowledge,
}
use lidar.Virt.Update.{on_connect, on_cmd, on_scan, on_datagram, greet, on_packet}

-- The command in a datagram, if it has one that ends.
abbrev pub text_of : Datagram → Option (List ℕ)
text_of runt = none
text_of other = none
text_of (cmd bytes) = c_string bytes
text_of (scan m) = none

abbrev pub in_front : Option (List ℕ) → List (List ℕ) → List (List ℕ)
in_front none q = q
in_front (some t) q = t ∷ q

abbrev pub texts : List (ℕ × Datagram) → List (List ℕ)
texts [] = []
texts ((addr, m) ∷ ms) = in_front (text_of m) (texts ms)

-- What a scan datagram leaves alone.
pub on_scan_keeps :
    (d : LidarVirtualDriver) (m : ScanMsg) {d' : LidarVirtualDriver}
    → on_scan d m ≡ some d'
    → (d'.cmd_queue ≡ d.cmd_queue)
      × (d'.udp_socket ≡ d.udp_socket)
      × (d'.last_remote_addr ≡ d.last_remote_addr)
unfolding on_scan
on_scan_keeps d m e = ground arith

send-keeps :
    (d : LidarVirtualDriver) (m : Datagram)
    → ((send d m).0.cmd_queue ≡ d.cmd_queue)
      × ((send d m).0.last_remote_addr ≡ d.last_remote_addr)
      × ((send d m).0.udp_socket.remote_addr ≡ d.udp_socket.remote_addr)
      × ((send d m).0.is_in_device ≡ d.is_in_device)
unfolding send send_packet
send-keeps d m = ground arith

-- What is sent to the peer, if there is one and the socket works.
abbrev pub posted : LidarVirtualDriver → Datagram → List (ℕ × Datagram)
posted d m = elim d.udp_socket.remote_addr [
  | none ↦ d.udp_socket.sent
  | some addr ↦
      if d.udp_socket.is_ok then d.udp_socket.sent ++ (addr, m) ∷ [] else d.udp_socket.sent
]

pub send-sent : (d : LidarVirtualDriver) (m : Datagram) → (send d m).0.udp_socket.sent ≡ posted d m
unfolding send send_packet
send-sent d m = ground arith

pub send_cmd-send : (d : LidarVirtualDriver) (t : List ℕ) → send_cmd d t ≡ send d (lidar_cmd_msg t)
unfolding send_cmd send
send_cmd-send d t = ground arith

pub greet-keeps :
    (d : LidarVirtualDriver)
    → ((greet d).cmd_queue ≡ d.cmd_queue)
      × ((greet d).udp_socket.remote_addr ≡ d.udp_socket.remote_addr)
      × ((greet d).is_in_device ≡ d.is_in_device)
unfolding greet send_connect
greet-keeps d =
    let called = record d {
      last_remote_addr = d.udp_socket.remote_addr;
      device_status_sent = false;
    } in
    ground (
      arith,
      send_cmd-send called (codes "connect"),
      send-keeps called (lidar_cmd_msg (codes "connect")),
    )

pub send_cmd-keeps :
    (d : LidarVirtualDriver) (t : List ℕ)
    → ((send_cmd d t).0.cmd_queue ≡ d.cmd_queue)
      × ((send_cmd d t).0.last_remote_addr ≡ d.last_remote_addr)
      × ((send_cmd d t).0.udp_socket.remote_addr ≡ d.udp_socket.remote_addr)
      × ((send_cmd d t).0.is_in_device ≡ d.is_in_device)
send_cmd-keeps d t = rw send_cmd-send (send-keeps d (lidar_cmd_msg t))

send_power_up_state-keeps :
    (d : LidarVirtualDriver) (state : Option Bool)
    → d.power_up_state ≡ state
    → ((send_power_up_state d).0.cmd_queue ≡ d.cmd_queue)
      × ((send_power_up_state d).0.udp_socket.remote_addr ≡ d.udp_socket.remote_addr)
unfolding send_power_up_state
send_power_up_state-keeps d none e = ground arith
send_power_up_state-keeps d (some true) e = ground (arith, send_cmd-keeps d (codes "startPowerUp"))
send_power_up_state-keeps d (some false) e =
    ground (arith, send_cmd-keeps d (codes "finishPowerUp"))

pub on_connect-keeps :
    (d : LidarVirtualDriver)
    → ((on_connect d).cmd_queue ≡ d.cmd_queue)
      × ((on_connect d).udp_socket.remote_addr ≡ d.udp_socket.remote_addr)
      × ((on_connect d).last_remote_addr ≡ d.udp_socket.remote_addr)
unfolding on_connect send_connect_acknowledge send_motor_state
on_connect-keeps d = ground (arith, send_power_up_state-keeps d d.power_up_state refl)

abbrev queued : Option (List ℕ) → List (List ℕ) → List (List ℕ)
queued none q = q
queued (some t) q = q ++ t ∷ []

queued-in_front : (o : Option (List ℕ)) (q r : List (List ℕ)) → queued o q ++ r ≡ q ++ in_front o r
queued-in_front none q r = refl
queued-in_front (some t) q r = append_assoc q (t ∷ []) r

on_cmd-cmd_queue :
    (d : LidarVirtualDriver) (t : List ℕ) → (on_cmd d t).cmd_queue ≡ d.cmd_queue ++ t ∷ []
unfolding on_cmd
on_cmd-cmd_queue d t = ground (arith, on_connect-keeps d)

on_datagram-cmd_queue :
    (d : LidarVirtualDriver) (m : Datagram) {d' : LidarVirtualDriver}
    → on_datagram d m ≡ some d'
    → d'.cmd_queue ≡ queued (text_of m) d.cmd_queue
unfolding on_datagram
on_datagram-cmd_queue d runt e = cc
on_datagram-cmd_queue d other e = ground arith
on_datagram-cmd_queue d (cmd bytes) {d'} e = elim (Option-cases (c_string bytes)) [
  | inl n ↦ ground arith
  | inr (t, n) ↦ ground (arith, on_cmd-cmd_queue d t)
]
on_datagram-cmd_queue d (scan m) e = (on_scan_keeps d m e).0

on_packet-cmd_queue :
    (now : ℕ) (d : LidarVirtualDriver) (addr : ℕ) (m : Datagram) {d' : LidarVirtualDriver}
    → on_packet now d addr m ≡ some d'
    → d'.cmd_queue ≡ queued (text_of m) d.cmd_queue
unfolding on_packet
on_packet-cmd_queue now d addr m e =
    let start = record d {
      udp_socket = record d.udp_socket { remote_addr = some addr };
      last_recv_time = now;
    } in
    elim (Option-cases (on_datagram start m)) [
      | inl n ↦ ground arith
      | inr (d1, n) ↦ ground (arith, on_datagram-cmd_queue start m n, greet-keeps d1)
    ]

-- The addresses and the mark of the last peer after one datagram.
pub on_datagram-addr :
    (d : LidarVirtualDriver) (m : Datagram) (addr : ℕ) {d' : LidarVirtualDriver}
    → d.udp_socket.remote_addr ≡ some addr
    → on_datagram d m ≡ some d'
    → d'.udp_socket.remote_addr ≡ some addr
unfolding on_datagram on_cmd
on_datagram-addr d runt addr h e = cc
on_datagram-addr d other addr h e = ground arith
on_datagram-addr d (cmd bytes) addr h e = elim (Option-cases (c_string bytes)) [
  | inl n ↦ ground arith
  | inr (t, n) ↦ ground (arith, on_connect-keeps d)
]
on_datagram-addr d (scan m) addr h e = ground (arith, on_scan_keeps d m e)

pub greet_marks :
    (d : LidarVirtualDriver) (addr : ℕ)
    → d.udp_socket.remote_addr ≡ some addr
    → (greet d).last_remote_addr ≡ some addr
unfolding greet send_connect same_addr
greet_marks d addr h =
    let called = record d {
      last_remote_addr = d.udp_socket.remote_addr;
      device_status_sent = false;
    } in
    ground (arith, send_cmd-keeps called (codes "connect"))

-- ===== src/Virt/Update/Replies.antt =====
-- What is sent back for each datagram that arrives.
use mathlib.Core.List.{append-nil}
use lidar.Prelude.{
  ℕ, Bool, true, false, List, [], ◌∷◌, ◌++◌, Option, none, some, ◌≡◌, refl, ap, ◌∙◌, arith,
  if◌then◌else◌, Bool-cases, Option-cases, inl, inr,
}
use lidar.Virt.Message.{Datagram, runt, other, cmd, scan, lidar_cmd_msg, c_string}
use lidar.Virt.Driver.{
  UdpSocket, LidarVirtualDriver, codes, same_text, same_addr, send_cmd, send_connect,
  send_motor_state, send_power_up_state, send_connect_acknowledge,
}
use lidar.Virt.Update.Commands.{
  text_of, send-sent, send_cmd-send, on_scan_keeps, on_connect-keeps, greet_marks,
}
use lidar.Virt.Update.{on_connect, on_cmd, on_scan, on_datagram, greet, on_packet}

abbrev is_connect : Option (List ℕ) → Bool
is_connect none = false
is_connect (some t) = same_text t (codes "connect")

-- The power state that the device's user waits to tell.
abbrev power_reply : Bool → Option Bool → List Datagram
power_reply true state = []
power_reply false none = []
power_reply false (some true) = lidar_cmd_msg (codes "startPowerUp") ∷ []
power_reply false (some false) = lidar_cmd_msg (codes "finishPowerUp") ∷ []

abbrev greeting : Option ℕ → ℕ → List Datagram
greeting last addr = if same_addr last (some addr) then [] else lidar_cmd_msg (codes "connect") ∷ []

abbrev pub replies : LidarVirtualDriver → ℕ → Datagram → List Datagram
replies d addr m =
    if is_connect (text_of m)
    then power_reply d.is_in_device d.power_up_state
    else greeting d.last_remote_addr addr

abbrev pub addressed : ℕ → List Datagram → List (ℕ × Datagram)
addressed addr [] = []
addressed addr (m ∷ ms) = (addr, m) ∷ addressed addr ms

send_cmd-sent :
    (d : LidarVirtualDriver) (addr : ℕ) (t : List ℕ)
    → d.udp_socket.remote_addr ≡ some addr
    → d.udp_socket.is_ok ≡ true
    → (send_cmd d t).0.udp_socket.sent ≡ d.udp_socket.sent ++ (addr, lidar_cmd_msg t) ∷ []
send_cmd-sent d addr t h o = ground (arith, send_cmd-send d t, send-sent d (lidar_cmd_msg t))

greet-sent :
    (d : LidarVirtualDriver) (addr : ℕ)
    → d.udp_socket.remote_addr ≡ some addr
    → d.udp_socket.is_ok ≡ true
    → (greet d).udp_socket.sent
      ≡ d.udp_socket.sent ++ addressed addr (greeting d.last_remote_addr addr)
unfolding greet send_connect
greet-sent d addr h o =
    let called = record d {
      last_remote_addr = d.udp_socket.remote_addr;
      device_status_sent = false;
    } in
    elim (Bool-cases (same_addr d.last_remote_addr (some addr))) [
      | inl same ↦ ground (arith, append-nil d.udp_socket.sent)
      | inr new ↦ ground (arith, send_cmd-sent called addr (codes "connect") h o)
    ]

greet_known :
    (d : LidarVirtualDriver) (addr : ℕ)
    → d.udp_socket.remote_addr ≡ some addr
    → d.last_remote_addr ≡ some addr
    → greet d ≡ d
unfolding greet same_addr
greet_known d addr h l = ground arith

power-sent :
    (d : LidarVirtualDriver) (addr : ℕ) (state : Option Bool)
    → d.power_up_state ≡ state
    → d.udp_socket.remote_addr ≡ some addr
    → d.udp_socket.is_ok ≡ true
    → (send_power_up_state d).0.udp_socket.sent
      ≡ d.udp_socket.sent ++ addressed addr (power_reply d.is_in_device state)
unfolding send_power_up_state
power-sent d addr none e h o = ground (arith, append-nil d.udp_socket.sent)
power-sent d addr (some true) e h o =
    ground (arith, append-nil d.udp_socket.sent, send_cmd-sent d addr (codes "startPowerUp") h o)
power-sent d addr (some false) e h o =
    ground (arith, append-nil d.udp_socket.sent, send_cmd-sent d addr (codes "finishPowerUp") h o)

on_connect-sent :
    (d : LidarVirtualDriver) (addr : ℕ)
    → d.udp_socket.remote_addr ≡ some addr
    → d.udp_socket.is_ok ≡ true
    → (on_connect d).udp_socket.sent
      ≡ d.udp_socket.sent ++ addressed addr (power_reply d.is_in_device d.power_up_state)
unfolding on_connect send_connect_acknowledge send_motor_state
on_connect-sent d addr h o =
    ground (arith, append-nil d.udp_socket.sent, power-sent d addr d.power_up_state refl h o)

-- After a datagram from `addr`, and with a socket that works, exactly this was sent to `addr`: for a
-- `connect` the power state, if this end is not the device's and has one to tell; for anything else a
-- `connect`, if the last peer was another one. The peer is then the last one.
pub on_packet-replies :
    (now : ℕ) (d : LidarVirtualDriver) (addr : ℕ) (m : Datagram) (d' : LidarVirtualDriver)
    → d.udp_socket.is_ok ≡ true
    → on_packet now d addr m ≡ some d'
    → (d'.udp_socket.sent ≡ d.udp_socket.sent ++ addressed addr (replies d addr m))
      × (d'.last_remote_addr ≡ some addr)
unfolding on_packet on_datagram on_cmd
on_packet-replies now d addr runt d' o e = cc
on_packet-replies now d addr other d' o e =
    let start = record d {
      udp_socket = record d.udp_socket { remote_addr = some addr };
      last_recv_time = now;
    } in
    ground (arith, greet-sent start addr refl o, greet_marks start addr refl)
on_packet-replies now d addr (scan m) d' o e =
    let start = record d {
      udp_socket = record d.udp_socket { remote_addr = some addr };
      last_recv_time = now;
    } in
    elim (Option-cases (on_scan start m)) [
      | inl n ↦ ground arith
      | inr (d1, n) ↦
          let (q, s, l) = on_scan_keeps start m n in
          let remote : d1.udp_socket.remote_addr ≡ some addr =
            ap (λ (t : UdpSocket). t.remote_addr) s in
          let works : d1.udp_socket.is_ok ≡ true = ap (λ (t : UdpSocket). t.is_ok) s ∙ o in
          let before : d1.udp_socket.sent ≡ d.udp_socket.sent = ap (λ (t : UdpSocket). t.sent) s in
          ground (arith, greet-sent d1 addr remote works, greet_marks d1 addr remote)
    ]
on_packet-replies now d addr (cmd bytes) d' o e = elim (Option-cases (c_string bytes)) [
  | inl n ↦ ground arith
  | inr (t, n) ↦
      let start = record d {
        udp_socket = record d.udp_socket { remote_addr = some addr };
        last_recv_time = now;
      } in
      let queued = record start { cmd_queue = start.cmd_queue ++ t ∷ [] } in
      let called = record (on_connect start) {
        cmd_queue = (on_connect start).cmd_queue ++ t ∷ [];
      } in
      let keeps = on_connect-keeps start in
      elim (Bool-cases (same_text t (codes "connect"))) [
        | inl yes_ ↦
            ground
              (arith, on_connect-sent start addr refl o, greet_known called addr keeps.1 keeps.2)
        | inr no_ ↦ ground (arith, greet-sent queued addr refl o, greet_marks queued addr refl)
      ]
]

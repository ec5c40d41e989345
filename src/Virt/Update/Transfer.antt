-- ===== src/Virt/Update/Transfer.antt =====
-- A scan from one end to the other: `sendScanData` at the sender, `update` and `grabScanData` at the
-- receiver.
use lidar.Prelude.{
  ℕ, ◌%◌, ◌^◌, ◌≤◌, ◌<◌, true, List, [], ◌∷◌, some, ◌≡◌, refl, sym, ap, subst, ◌∙◌, arith,
  Option-cases, inl, inr, map, ==_iff, length,
}
use lidar.Virt.Message.{LidarRawSample, scan_data, ScanMsg, Datagram, scan, num_packets}
use lidar.Virt.Scan.{LidarScanData, lidar_scan_data, init_data, copy_samples, add_data, add_all}
use lidar.Virt.Scan.Assembly.{contains, AllBelow, packet, packet_header, add_all_covers}
use lidar.Virt.ScanList.Grab.{grab_one}
use lidar.Virt.ScanList.{
  LidarScanDataList, last_index, emplace, make_room, insert_new, get_scan_data, receive_packet,
  grab_scan_data,
}
use lidar.Virt.Driver.Sending.{mailed}
use lidar.Virt.Driver.{LidarVirtualDriver, send_packet, send, send_cmd, send_connect}
use lidar.Virt.Update.{on_scan, on_datagram, greet, on_packet, receive_all}

add_data-seq_nr :
    (d : LidarScanData) (m : ScanMsg) {d' : LidarScanData}
    → d.seq_nr ≡ m.header.seq_nr
    → add_data d m ≡ some d'
    → d'.seq_nr ≡ m.header.seq_nr
unfolding add_data copy_samples init_data
add_data-seq_nr d m h e = ground arith

-- A list with one scan, and a packet of that scan.
receive_packet_one :
    (l : LidarScanDataList) (d : LidarScanData) (m : ScanMsg) (d' : LidarScanData)
    → l.scans ≡ d ∷ []
    → d.seq_nr ≡ m.header.seq_nr
    → add_data d m ≡ some d'
    → receive_packet l m ≡ some (record l { scans = d' ∷ [] })
unfolding receive_packet get_scan_data last_index
receive_packet_one l d m d' e s a = rw e (ground (arith, ==_iff d.seq_nr m.header.seq_nr))

-- An empty list, and the first packet of a scan.
receive_packet_first :
    (l : LidarScanDataList) (m : ScanMsg) (d' : LidarScanData)
    → l.scans ≡ []
    → add_data (lidar_scan_data m.header.seq_nr) m ≡ some d'
    → receive_packet l m ≡ some (record l { scans = d' ∷ [] })
unfolding receive_packet get_scan_data last_index insert_new emplace make_room
receive_packet_first l m d' e a = rw e (ground arith)

send-scan_data_list :
    (d : LidarVirtualDriver) (m : Datagram) → (send d m).0.scan_data_list ≡ d.scan_data_list
unfolding send send_packet
send-scan_data_list d m = ground arith

greet-scan_data_list : (d : LidarVirtualDriver) → (greet d).scan_data_list ≡ d.scan_data_list
unfolding greet send_connect send_cmd send send_packet
greet-scan_data_list d = ground arith

-- A round of the loop of `update` on a packet that the list takes.
on_packet_scan :
    (now : ℕ) (d : LidarVirtualDriver) (addr : ℕ) (m : ScanMsg) (l : LidarScanDataList)
    → m.header.type ≡ scan_data
    → 0 < m.header.nodes_per_packet
    → m.header.total_nodes < 500000
    → receive_packet d.scan_data_list m ≡ some l
    → (d' : LidarVirtualDriver) × (on_packet now d addr (scan m) ≡ some d')
      × (d'.scan_data_list ≡ l)
unfolding on_packet on_datagram on_scan
on_packet_scan now d addr m l t p q e =
    let start = record d {
      udp_socket = record d.udp_socket { remote_addr = some addr };
      last_recv_time = now;
    } in
    let kept = record start { scan_data_list = l } in
    (greet kept, ground arith, greet-scan_data_list kept)

record IsPacketOf (seq : ℕ) (m : ScanMsg) : Type 0 where
  type : m.header.type ≡ scan_data
  per_packet : 0 < m.header.nodes_per_packet
  total : m.header.total_nodes < 500000
  number : m.header.seq_nr ≡ seq

abbrev AllPacketsOf : ℕ → List ScanMsg → Type 0
AllPacketsOf seq [] = Unit {0}
AllPacketsOf seq (m ∷ ms) = IsPacketOf seq m × AllPacketsOf seq ms

-- While the packets of one scan come in, the list holds that scan alone.
receive_all_one :
    (now addr seq : ℕ) (ms : List ScanMsg) (r : LidarVirtualDriver) (d d' : LidarScanData)
    → AllPacketsOf seq ms
    → r.scan_data_list.scans ≡ d ∷ []
    → d.seq_nr ≡ seq
    → add_all d ms ≡ some d'
    → (r' : LidarVirtualDriver) × (receive_all now (mailed addr ms) r ≡ some r')
      × (r'.scan_data_list ≡ record r.scan_data_list { scans = d' ∷ [] })
unfolding receive_all add_all
receive_all_one now addr seq [] r d d' ps l n e = (r, refl, ground arith)
receive_all_one now addr seq (m ∷ ms) r d d' (p, ps) l n e = elim (Option-cases (add_data d m)) [
  | inl bad ↦ absurd (ground arith)
  | inr (d1, a) ↦
      let l1 = record r.scan_data_list { scans = d1 ∷ [] } in
      let same : d.seq_nr ≡ m.header.seq_nr = n ∙ sym p.number in
      let taken = receive_packet_one r.scan_data_list d m d1 l same a in
      let (r1, step, kept) = on_packet_scan now r addr m l1 p.type p.per_packet p.total taken in
      let (r', e', k') =
        receive_all_one now addr seq ms r1 d1 d' ps (ap (λ (t : LidarScanDataList). t.scans) kept)
          (add_data-seq_nr d m same a ∙ p.number) (rw (a, add_all) at e) in
      (r', rw (receive_all, step) e', k' ∙ rw kept refl)
]

module _ (seq : ℕ) (nodes : List LidarRawSample) (short : length nodes ≤ 32768) where
  packets_of :
      (is : List ℕ)
      → AllBelow (num_packets (length nodes) 128) is
      → AllPacketsOf (seq % 2 ^ 64) (map (packet scan_data seq nodes) is)
  packets_of [] b = tt
  packets_of (i ∷ is) b =
      let header = packet_header scan_data seq nodes i b.0 short in
      (
        record {
          type = rw header refl;
          per_packet = rw header (omega arith);
          total = rw header (omega arith);
          number = rw header refl;
        },
        packets_of is b.1,
      )

  -- A scan of at most 32768 samples, sent as packets that arrive in any order, each at least once, at a
  -- receiver with no scan in its list and no higher number seen: `update` receives all of it without
  -- undefined behaviour, and `grabScanData` then succeeds with the sender's samples and leaves the
  -- list empty.
  pub transfer :
      (i : ℕ) (is : List ℕ) (now addr : ℕ) (r : LidarVirtualDriver) (old : List LidarRawSample)
      → AllBelow (num_packets (length nodes) 128) (i ∷ is)
      → ((k : ℕ) → k < num_packets (length nodes) 128 → contains (i ∷ is) k ≡ true)
      → r.scan_data_list.scans ≡ []
      → r.scan_data_list.current_seq_nr ≤ seq % 2 ^ 64
      → (r' : LidarVirtualDriver) × (receive_all now
            (mailed addr (map (packet scan_data seq nodes) (i ∷ is)))
            r
          ≡ some r')
        × ((grab_scan_data true r'.scan_data_list old).1 ≡ true)
        × ((grab_scan_data true r'.scan_data_list old).2 ≡ nodes)
        × ((grab_scan_data true r'.scan_data_list old).0.scans ≡ [])
  unfolding receive_all add_all
  transfer i is now addr r old b covers empty low =
      let (d, e, done, same, number) = add_all_covers scan_data seq nodes i is short b covers in
      let m = packet scan_data seq nodes i in
      let (p, ps) = packets_of (i ∷ is) b in
      elim (Option-cases (add_data (lidar_scan_data (seq % 2 ^ 64)) m)) [
        | inl bad ↦ absurd (ground arith)
        | inr (d1, a) ↦
            let l1 = record r.scan_data_list { scans = d1 ∷ [] } in
            let first : add_data (lidar_scan_data m.header.seq_nr) m ≡ some d1 =
              subst (λ (t : ℕ). add_data (lidar_scan_data t) m ≡ some d1) (sym p.number) a in
            let taken = receive_packet_first r.scan_data_list m d1 empty first in
            let (r1, step, kept) =
              on_packet_scan now r addr m l1 p.type p.per_packet p.total taken in
            let start : (lidar_scan_data m.header.seq_nr).seq_nr ≡ m.header.seq_nr =
              unfold lidar_scan_data in refl in
            let (r', e', k') =
              receive_all_one now addr (seq % 2 ^ 64) (map (packet scan_data seq nodes) is) r1 d1 d
                ps (ap (λ (t : LidarScanDataList). t.scans) kept)
                (add_data-seq_nr (lidar_scan_data m.header.seq_nr) m start first ∙ p.number)
                (rw (a, add_all) at e) in
            let (ok1, ok2, ok3) =
              grab_one r'.scan_data_list d old (ap (λ (t : LidarScanDataList). t.scans) k') done
                (rw (k', kept, number) low) in
            (r', rw (receive_all, step) e', ok1, ok2 ∙ same, ok3)
      ]

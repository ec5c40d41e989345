-- ===== src/Virt/Scan/Assembly.antt =====
-- A scan that `sendScanData` cuts into packets is put together again by `addData`, whatever the
-- order in which the packets arrive, and however often.
use lidar.Prelude.{
  ℕ, ◌*◌, ◌/◌, ◌%◌, ◌^◌, ◌≤◌, ◌<◌, Bool, true, false, ◌||◌, List, [], ◌∷◌, map, some, ◌≡◌, ◌↔◌, inl,
  inr, refl, sym, ap, ◌∙◌, arith, ltb, ◌==◌, Bool-cases, length, get_elem?, set, take, write_at,
  length-set, ==_iff, length-replicate, length-write_at, get_elem?-set_self, get_elem?-set_ne,
  get_elem?-replicate, get_elem?_bound, get_elem?_ext,
}
use lidar.Virt.Message.{
  LidarRawSample, ScanType, LidarScanHeader, ScanMsg, lidar_scan_header, lidar_scan_msg,
  num_packets,
}
use lidar.Virt.Scan.Slice
use lidar.Virt.Scan.{
  LidarScanData, lidar_scan_data, complete, zero_sample, init_data, add_data, add_all,
  expected_packets,
}
use lidar.Virt.Scan.Packet.{
  all_received_get, all_received_of, packet_range, packets-le, packets_pos, index_packet,
  expected_packets_lem, add_data_fits, add_data_init,
}

-- The packet ids that have arrived.
abbrev pub contains : List ℕ → ℕ → Bool
contains [] i = false
contains (x ∷ xs) i = x == i || contains xs i

abbrev pub AllBelow : ℕ → List ℕ → Type 0
AllBelow n [] = Unit {0}
AllBelow n (i ∷ is) = (i < n) × AllBelow n is

module _ (type : ScanType) (seq : ℕ) (nodes : List LidarRawSample) where
  abbrev count : ℕ
  count = length nodes

  abbrev packets : ℕ
  packets = num_packets count 128

  -- The `i`th datagram that `sendScanData` sends.
  abbrev pub packet : ℕ → ScanMsg
  packet i = lidar_scan_msg type seq i 128 count nodes

  -- After the packets `got`, the samples of those packets are in place.
  pub record Holds (got : List ℕ) (d : LidarScanData) : Type 0 where
    pub slots : length d.packets_received ≡ packets
    pub size : length d.nodes ≡ count
    pub seq_nr : d.seq_nr ≡ seq % 2 ^ 64
    pub marks : (i : ℕ) → i < packets → get_elem? d.packets_received i ≡ some (contains got i)
    pub placed :
        (j : ℕ)
        → j < count
        → contains got (j / 128) ≡ true
        → get_elem? d.nodes j ≡ get_elem? nodes j

  pub packet_header :
      (i : ℕ)
      → i < packets
      → count ≤ 32768
      → (packet i).header ≡ record {
        type = type;
        seq_nr = seq % 2 ^ 64;
        packet_id = i;
        nodes_per_packet = 128;
        total_nodes = count;
      }
  unfolding lidar_scan_msg lidar_scan_header
  packet_header i h l = ground (arith, packets-le count l)

  abbrev width : ℕ → ℕ
  width = Slice.width nodes

  abbrev slice : ℕ → List LidarRawSample
  slice = Slice.slice nodes

  packet_id : (i : ℕ) → i < packets → count ≤ 32768 → (packet i).header.packet_id ≡ i
  packet_id i h l = ap (λ (t : LidarScanHeader). t.packet_id) (packet_header i h l)

  packet_samples : (i : ℕ) → (packet i).samples ≡ slice i
  unfolding lidar_scan_msg
  packet_samples i = refl

  after : LidarScanData → ℕ → LidarScanData
  after d i = record d {
    packets_received = set d.packets_received i true;
    nodes = write_at (i * 128) (take (width i) (slice i)) d.nodes;
  }

  add_data-packet :
      (d : LidarScanData) (i : ℕ)
      → i < packets
      → count ≤ 32768
      → length d.packets_received ≡ packets
      → length d.nodes ≡ count
      → add_data d (packet i) ≡ some (after d i)
  unfolding after
  add_data-packet d i h l r s =
      let header = packet_header i h l in
      let id : (packet i).header.packet_id ≡ i = ap (λ (t : LidarScanHeader). t.packet_id) header in
      let per : (packet i).header.nodes_per_packet ≡ 128 =
        ap (λ (t : LidarScanHeader). t.nodes_per_packet) header in
      let total : (packet i).header.total_nodes ≡ count =
        ap (λ (t : LidarScanHeader). t.total_nodes) header in
      let evaluated =
        add_data_fits d (packet i) (width i) per (rw (id, total) h) (rw id (omega arith))
          (rw (id, per, total) refl)
          (rw packet_samples (omega (arith, Slice.length-slice nodes i h)))
          (rw (id, per) (omega (arith, packet_range i count h))) in
      evaluated ∙ rw (id, per, packet_samples) refl

  marks_after :
      (bs : List Bool) (got : List ℕ) (i : ℕ)
      → i < length bs
      → ((k : ℕ) → k < packets → get_elem? bs k ≡ some (contains got k))
      → (k : ℕ) → k < packets
      → get_elem? (set bs i true) k ≡ some (contains (i ∷ got) k)
  marks_after bs got i h marks k l =
      ground
        (arith, marks k l, get_elem?-set_self bs i true h, get_elem?-set_ne bs i k true, ==_iff i k)

  -- One more packet of the scan, be it new or a copy of one that has arrived.
  add_data-Holds :
      (got : List ℕ) (d : LidarScanData) (i : ℕ)
      → i < packets
      → count ≤ 32768
      → Holds got d
      → (add_data d (packet i) ≡ some (after d i)) × Holds (i ∷ got) (after d i)
  unfolding after
  add_data-Holds got d i h l v = (
    add_data-packet d i h l v.slots v.size,
    record {
      slots = length-set d.packets_received i true ∙ v.slots;
      size = length-write_at (i * 128) _ d.nodes ∙ v.size;
      seq_nr = v.seq_nr;
      marks = marks_after d.packets_received got i (omega (arith, v.slots)) v.marks;
      placed = λ j lj seen. rw (Slice.take-slice nodes i h) (
          ground (
            arith,
            Slice.written_inside nodes i j d.nodes h v.size lj,
            Slice.written_outside nodes i j d.nodes h v.size lj,
            v.placed j lj,
          ));
    },
  )

  abbrev fresh : ℕ → LidarScanData
  fresh i =
      init_data (lidar_scan_data (seq % 2 ^ 64)) (packet i).header
        (expected_packets (packet i).header)

  header_expected :
      (i : ℕ) → i < packets → count ≤ 32768 → expected_packets (packet i).header ≡ packets
  header_expected i h l =
      let header = packet_header i h l in
      let per : (packet i).header.nodes_per_packet ≡ 128 =
        ap (λ (t : LidarScanHeader). t.nodes_per_packet) header in
      let total : (packet i).header.total_nodes ≡ count =
        ap (λ (t : LidarScanHeader). t.total_nodes) header in
      expected_packets_lem (packet i).header per ∙ rw total refl

  fresh-Holds : (i : ℕ) → i < packets → count ≤ 32768 → Holds [] (fresh i)
  unfolding init_data lidar_scan_data
  fresh-Holds i h l =
      let header = packet_header i h l in
      let total : (packet i).header.total_nodes ≡ count =
        ap (λ (t : LidarScanHeader). t.total_nodes) header in
      record {
        slots = length-replicate _ false ∙ header_expected i h l;
        size = length-replicate _ zero_sample ∙ total;
        seq_nr = ap (λ (t : LidarScanHeader). t.seq_nr) header;
        marks = λ k lk. ground (
          arith,
          get_elem?-replicate (expected_packets (packet i).header) k false,
          header_expected i h l,
        );
        placed = λ j lj seen. absurd (cc);
      }

  abbrev seen : List ℕ → List ℕ → List ℕ
  seen got [] = got
  seen got (i ∷ is) = seen (i ∷ got) is

  contains-seen :
      (got is : List ℕ) (k : ℕ) → contains (seen got is) k ≡ (contains is k || contains got k)
  contains-seen got [] k = refl
  contains-seen got (i ∷ is) k = ground (arith, contains-seen (i ∷ got) is k)

  add_all-Holds :
      (is got : List ℕ) (d : LidarScanData)
      → AllBelow packets is
      → count ≤ 32768
      → Holds got d
      → (d' : LidarScanData) × (add_all d (map packet is) ≡ some d') × Holds (seen got is) d'
  unfolding add_all
  add_all-Holds [] got d b l v = (d, refl, v)
  add_all-Holds (i ∷ is) got d b l v =
      let (e, v') = add_data-Holds got d i b.0 l v in
      let (d', e', w) = add_all-Holds is (i ∷ got) (after d i) b.1 l v' in
      (d', rw (e, add_all) e', w)

  complete-Holds :
      (got : List ℕ) (d : LidarScanData)
      → Holds got d
      → (complete d ≡ true) ↔ ((i : ℕ) → i < packets → contains got i ≡ true)
  unfolding complete
  complete-Holds got d v = (
    (λ e i h.
        ground
          (arith, v.marks i h, v.slots, all_received_get d.packets_received i, packets_pos count)),
    λ all. ground (
      arith,
      v.slots,
      packets_pos count,
      all_received_of d.packets_received
          (λ i h. v.marks i (omega (arith, v.slots)) ∙ ap some (all i (omega (arith, v.slots)))),
    ),
  )

  nodes-Holds :
      (got : List ℕ) (d : LidarScanData) → Holds got d → complete d ≡ true → d.nodes ≡ nodes
  nodes-Holds got d v e = get_elem?_ext d.nodes nodes (λ j. elim (Bool-cases (ltb j count)) [
    | inl inside ↦
        let lj : j < count = ground arith in
        v.placed j lj ((complete-Holds got d v).0 e (j / 128) (index_packet j count lj))
    | inr outside ↦
        get_elem?_bound d.nodes j (ground (arith, v.size))
        ∙ sym (get_elem?_bound nodes j (ground arith))
  ])

  received :
      (i : ℕ) (is : List ℕ)
      → count ≤ 32768
      → AllBelow packets (i ∷ is)
      → (d : LidarScanData) × (add_all (lidar_scan_data (seq % 2 ^ 64)) (map packet (i ∷ is))
          ≡ some d)
        × Holds (seen (i ∷ []) is) d
  unfolding add_all
  received i is l b =
      let (e, v) = add_data-Holds [] (fresh i) i b.0 l (fresh-Holds i b.0 l) in
      let (d, e', w) = add_all-Holds is (i ∷ []) (after (fresh i) i) b.1 l v in
      let first =
        add_data_init (lidar_scan_data (seq % 2 ^ 64)) (packet i)
          (rw (header_expected i b.0 l) (omega (arith, packet_id i b.0 l))) in
      (d, rw (first, e, add_all) e', w)

  contains_received :
      (i : ℕ) (is : List ℕ) (k : ℕ) → contains (seen (i ∷ []) is) k ≡ contains (i ∷ is) k
  contains_received i is k = ground (arith, contains-seen (i ∷ []) is k)

  -- A scan of at most 32768 samples, cut into packets as the sender does and received in any order,
  -- each packet at least once and perhaps more often, is complete at the receiver, holds the sender's
  -- samples, and carries the sender's number; nothing is read or written out of bounds on the way.
  pub add_all_covers :
      (i : ℕ) (is : List ℕ)
      → count ≤ 32768
      → AllBelow packets (i ∷ is)
      → ((k : ℕ) → k < packets → contains (i ∷ is) k ≡ true)
      → (d : LidarScanData) × (add_all (lidar_scan_data (seq % 2 ^ 64)) (map packet (i ∷ is))
          ≡ some d)
        × (complete d ≡ true)
        × (d.nodes ≡ nodes)
        × (d.seq_nr ≡ seq % 2 ^ 64)
  add_all_covers i is l b covers =
      let (d, e, v) = received i is l b in
      let done = (complete-Holds _ d v).1 (λ k h. contains_received i is k ∙ covers k h) in
      (d, e, done, nodes-Holds _ d v done, v.seq_nr)

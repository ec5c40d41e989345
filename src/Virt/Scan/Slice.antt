-- ===== src/Virt/Scan/Slice.antt =====
-- Which samples of a scan a packet carries, and what a copy of them into the scan leaves at each index.
use lidar.Prelude.{
  ℕ, ◌+◌, ◌-◌, ◌*◌, ◌/◌, ◌≤◌, ◌<◌, List, ◌≡◌, ◌≢◌, inl, inr, sym, arith, ltb, Bool-cases, length,
  get_elem?, take, drop, write_at, length-take, length-drop, take_all, get_elem?-take,
  get_elem?-drop, get_elem?-write_at, get_elem?-write_at_below,
}
use lidar.Virt.Message.{LidarRawSample, nodes_in_packet, num_packets}
use lidar.Virt.Scan.Packet.{packet_range, packet_holds, packet_ends}

module _ (nodes : List LidarRawSample) where
  abbrev pub count : ℕ
  count = length nodes

  abbrev pub packets : ℕ
  packets = num_packets count 128

  abbrev pub width : ℕ → ℕ
  width i = nodes_in_packet i 128 count

  abbrev pub slice : ℕ → List LidarRawSample
  slice i = take (width i) (drop (i * 128) nodes)

  pub length-slice : (i : ℕ) → i < packets → length (slice i) ≡ width i
  length-slice i h = omega (
    arith,
    length-take (width i) (drop (i * 128) nodes),
    length-drop (i * 128) nodes,
    packet_range i count h,
  )

  pub slice_get :
      (i k : ℕ) → i < packets → k < width i → get_elem? (slice i) k ≡ get_elem? nodes (i * 128 + k)
  slice_get i k h l =
      ground
        (arith, get_elem?-take (width i) k (drop (i * 128) nodes), get_elem?-drop (i * 128) k nodes)

  -- The samples after packet `i` is written, at an index inside of it and outside.
  pub written_inside :
      (i j : ℕ) (old : List LidarRawSample)
      → i < packets
      → length old ≡ count
      → j < count
      → j / 128 ≡ i
      → get_elem? (write_at (i * 128) (slice i) old) j ≡ get_elem? nodes j
  written_inside i j old h e l q =
      let k : ℕ = j - i * 128 in
      let split : i * 128 + k ≡ j = omega arith in
      let inside : k < width i = omega (arith, packet_holds i j count h l (sym q)) in
      rw (← split) (
        ground (
          arith,
          get_elem?-write_at (i * 128) k (slice i) old (omega arith),
          length-slice i h,
          slice_get i k h inside,
        ))

  pub written_outside :
      (i j : ℕ) (old : List LidarRawSample)
      → i < packets
      → length old ≡ count
      → j < count
      → j / 128 ≢ i
      → get_elem? (write_at (i * 128) (slice i) old) j ≡ get_elem? old j
  written_outside i j old h e l q = elim (Bool-cases (ltb j (i * 128))) [
    | inl below ↦ get_elem?-write_at_below (i * 128) j (slice i) old (ground arith)
    | inr above ↦
        let k : ℕ = j - i * 128 in
        let split : i * 128 + k ≡ j = ground arith in
        let outside : width i ≤ k =
          omega (arith, packet_range i count h, packet_ends i j above q) in
        rw (← split) (
          ground
            (arith, get_elem?-write_at (i * 128) k (slice i) old (omega arith), length-slice i h))
  ]

  pub take-slice : (i : ℕ) → i < packets → take (width i) (slice i) ≡ slice i
  take-slice i h = take_all (width i) (slice i) (omega (arith, length-slice i h))

-- ===== src/Lslidar/Bounds.antt =====
-- When a packet of an M10 is written beyond the end of the scan.
use lidar.Prelude.{
  ℕ, zero, suc, ◌+◌, ◌<◌, ◌≤◌, List, [], ◌∷◌, none, some, ◌≡◌, inl, inr, ◌↔◌, arith, ◌==◌,
  if◌then◌else◌, Bool-cases, Option-cases, length, get_elem?, set, length-set,
}
use lidar.Lslidar.M10.{M10Degrees, M10Driver, raw_at, store_distance, store_samples, take_packet}

-- The number of samples from `i` on that are not 0xFFFF, of which `n` are left.
abbrev pub valid : ℕ → ℕ → List ℕ → ℕ
valid zero i buf = 0
valid (suc n) i buf =
    let rest = valid n (i + 2) buf in if raw_at buf i == 65535 then rest else suc rest

module _ {A : Type 0} (g : M10Degrees A) where
  get_elem?-some :
      {B : Type 0} (xs : List B) (i : ℕ) (b : B) → get_elem? xs i ≡ some b → i < length xs
  get_elem?-some [] i b h = ground (arith, h)
  get_elem?-some (x ∷ xs) zero b h = omega arith
  get_elem?-some (x ∷ xs) (suc i) b h = let rest = get_elem?-some xs i b h in omega arith

  get_elem?-none : {B : Type 0} (xs : List B) (i : ℕ) → get_elem? xs i ≡ none → length xs ≤ i
  get_elem?-none [] i h = omega arith
  get_elem?-none (x ∷ xs) zero h = ground (arith, h)
  get_elem?-none (x ∷ xs) (suc i) h = let rest = get_elem?-none xs i h in omega arith

  store_samples-eq-none :
      (n i : ℕ) (d : M10Driver A)
      → d.scan_index ≤ length d.scan_data
      → (store_samples g n i d ≡ none)
        ↔ (length d.scan_data < d.scan_index + valid n i d.packet_bytes)
  unfolding store_samples
  store_samples-eq-none zero i d h = ground (arith, h)
  store_samples-eq-none (suc n) i d h = elim (Bool-cases (raw_at d.packet_bytes i == 65535)) [
    | inl gap ↦ ground (arith, gap, store_samples-eq-none n (i + 2) d h)
    | inr sample ↦ elim (Option-cases (get_elem? d.scan_data d.scan_index)) [
      | inl out ↦ ground (arith, sample, out, get_elem?-none d.scan_data d.scan_index out)
      | inr (point, there) ↦
          let room = get_elem?-some d.scan_data d.scan_index point there in
          let stored = store_distance g (raw_at d.packet_bytes i) point in
          let next : M10Driver A = record d {
            scan_data = set d.scan_data d.scan_index stored;
            scan_index = d.scan_index + 1;
          } in
          let size = length-set d.scan_data d.scan_index stored in
          let rest = store_samples-eq-none n (i + 2) next (ground (arith, room, size)) in
          ground (arith, sample, there, rest, size)
    ]
  ]

  -- If `scanIndex` is not beyond the end of the scan, a packet of an M10 is written beyond the end of
  -- the scan exactly if the scan has not room for all its samples that are not 0xFFFF behind those
  -- that are there, whatever its degree.
  pub take_packet-eq-none :
      (i : ℕ) (d : M10Driver A)
      → d.scan_index ≤ length d.scan_data
      → (take_packet g i d ≡ none)
        ↔ (length d.scan_data < d.scan_index + valid 42 (i + 6) d.packet_bytes)
  unfolding take_packet
  take_packet-eq-none i d h =
      let stored = store_samples-eq-none 42 (i + 6) d h in
      elim (Option-cases (store_samples g 42 (i + 6) d)) [
        | inl out ↦ ground (arith, stored, out)
        | inr (s, done) ↦ ground (arith, stored, done)
      ]

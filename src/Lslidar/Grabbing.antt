-- ===== src/Lslidar/Grabbing.antt =====
-- Packets that come in two reads.
use lidar.Prelude.{
  ℕ, suc, ◌+◌, ◌<◌, ◌≤◌, false, List, [], ◌∷◌, none, ◌≡◌, refl, ap, ◌∙◌, arith, ◌==◌, length,
  write_at,
}
use lidar.Lslidar.{
  Degrees, LsLidarDriver, byte_at, is_packet, parse_data_n10, receive, forget_bytes, take_bytes,
  grab_scan_data_n10,
}

first_written :
    (b : ℕ) (rest next buf : List ℕ) (n : ℕ)
    → n ≡ 0
    → 0 < length buf
    → byte_at (write_at (n + suc (length rest)) next (write_at n (b ∷ rest) buf)) 0 ≡ b
first_written b rest next [] n z room = ground (arith, room)
first_written b rest next (y ∷ buf) n z room =
    let e : n + suc (length rest) ≡ suc (length rest) = omega arith in rw (e, z) refl

module _ {A : Type 0} (g : Degrees A) where
  -- What has come is too short to be parsed.
  take_bytes_few :
      (bytes : List ℕ) (d : LsLidarDriver A)
      → d.total_bytes + length bytes < 47
      → take_bytes g bytes d ≡ (receive g bytes d, none)
  unfolding take_bytes receive
  take_bytes_few bytes d h = ground (arith, h)

  -- What has come does not begin like a packet.
  take_bytes_other :
      (bytes : List ℕ) (d : LsLidarDriver A)
      → 47 ≤ d.total_bytes + length bytes
      → (byte_at (receive g bytes d).packet_bytes 0 == 165) ≡ false
      → take_bytes g bytes d ≡ (forget_bytes g (receive g bytes d), none)
  unfolding take_bytes receive parse_data_n10 is_packet
  take_bytes_other bytes d h b = ground (arith, h, b)

  take_bytes_total :
      (bytes : List ℕ) (d : LsLidarDriver A)
      → 47 ≤ d.total_bytes + length bytes
      → (take_bytes g bytes d).0.total_bytes ≡ 0
  unfolding take_bytes receive forget_bytes
  take_bytes_total bytes d h = ground (arith, h)

  -- The first byte in the buffer after two reads.
  first_byte :
      (b : ℕ) (rest next : List ℕ) (p : LsLidarDriver A)
      → p.total_bytes ≡ 0
      → 0 < length p.packet_bytes
      → byte_at (receive g next (receive g (b ∷ rest) p)).packet_bytes 0 ≡ b
  unfolding receive
  first_byte b rest next p t room = first_written b rest next p.packet_bytes p.total_bytes t room

  grab_next :
      (b : ℕ) (bytes : List ℕ) (reads : List (List ℕ)) (p q : LsLidarDriver A)
      → take_bytes g (b ∷ bytes) p ≡ (q, none)
      → grab_scan_data_n10 g ((b ∷ bytes) ∷ reads) p ≡ grab_scan_data_n10 g reads q
  unfolding grab_scan_data_n10
  grab_next b bytes reads p q h = rw (ap (λ r. r.1) h, ap (λ r. r.0) h, grab_scan_data_n10) refl

  -- A few bytes that do not begin like a packet, and the next packet behind them.
  late_bytes :
      (b : ℕ) (rest : List ℕ) (c : ℕ) (next : List ℕ) (p : LsLidarDriver A)
      → p.total_bytes ≡ 0
      → length rest < 11
      → length (c ∷ next) ≡ 58
      → (b == 165) ≡ false
      → 0 < length p.packet_bytes
      → grab_scan_data_n10 g ((b ∷ rest) ∷ (c ∷ next) ∷ []) p
        ≡ (forget_bytes g (receive g (c ∷ next) (receive g (b ∷ rest) p)), none, [])
  unfolding grab_scan_data_n10
  late_bytes b rest c next p t few full other room =
      let got = receive g (b ∷ rest) p in
      let begin = first_byte b rest (c ∷ next) p t room in
      let one = take_bytes_few (b ∷ rest) p (ground (arith, t, few)) in
      let two = take_bytes_other (c ∷ next) got (omega arith) (rw (begin) other) in
      grab_next b rest ((c ∷ next) ∷ []) p got one ∙ grab_next c next [] got _ two

  -- If a packet of 58 bytes comes in two reads, of which the first has 47 bytes or more, then its rest
  -- is kept as if it began the next packet: together with the whole packet that comes next it is
  -- thrown away, if it does not itself begin with the byte 165. Neither of the last two reads gives a
  -- scan or changes the one that is put together, and no bytes are kept.
  pub split_packet :
      (first : List ℕ) (b : ℕ) (rest : List ℕ) (c : ℕ) (next : List ℕ) (d : LsLidarDriver A)
      → d.total_bytes ≡ 0
      → 47 ≤ length first
      → length first + suc (length rest) ≡ 58
      → length (c ∷ next) ≡ 58
      → (b == 165) ≡ false
      → 0 < length (take_bytes g first d).0.packet_bytes
      → let parsed = (take_bytes g first d).0 in
        let after = grab_scan_data_n10 g ((b ∷ rest) ∷ (c ∷ next) ∷ []) parsed in
        (after.1 ≡ none) × (after.0.scan_data ≡ parsed.scan_data) × (after.0.total_bytes ≡ 0)
  unfolding receive forget_bytes
  split_packet first b rest c next d t enough whole full other room =
      let parsed = (take_bytes g first d).0 in
      let zero_ = take_bytes_total first d (omega arith) in
      let lost = late_bytes b rest c next parsed zero_ (omega arith) full other room in
      (ap (λ r. r.1) lost, ap (λ r. r.0.scan_data) lost, ap (λ r. r.0.total_bytes) lost)

-- ===== src/Lslidar/M10.antt =====
-- `readPacketM10` and `grabScanDataM10`. Floating point is the parameter `M10Degrees`. An access outside of `scanData` is the result `none`.
use lidar.Prelude.{
  ℕ, zero, suc, ◌+◌, ◌-◌, ◌*◌, Bool, true, false, ◌&&◌, not, List, [], Option, none, some, ltb,
  ◌==◌, if◌then◌else◌, length, get_elem?, set, take, drop, replicate, write_at,
}
use lidar.Lslidar.{ScanPoint, byte_at}
use lidar.Lslidar.Port.{Port, is_readable, wait_readable, read}

pub record M10Degrees (A : Type 0) : Type 0 where
  -- The degree of a raw one, below 360, and the angle of a sample, of so many in a packet.
  pub degree_of : ℕ → A
  pub sample_angle : A → ℕ → ℕ → A
  pub metres : ℕ → A
  -- Is a distance above 0.1 metres?
  pub is_valid : A → Bool
  pub below : A → A → Bool
  pub zero_ : A

pub record M10Driver (A : Type 0) : Type 0 where
  pub packet_bytes : List ℕ
  pub last_degree : A
  pub scan_index : ℕ
  pub scan_data : List (ScanPoint A)
  pub scan_data_ready : List (ScanPoint A)

-- Two bytes of the packet at `i`.
abbrev pub raw_at : List ℕ → ℕ → ℕ
raw_at buf i = byte_at buf i * 256 + byte_at buf (i + 1)

module _ {A : Type 0} (g : M10Degrees A) where
  -- A sample whose distance is stored.
  unfoldable pub store_distance : ℕ → ScanPoint A → ScanPoint A
  store_distance raw point =
      let distance = g.metres raw in
      record point {
        distance = distance;
        quality = if g.is_valid distance then 100 else point.quality;
      }

  -- The samples from `i` on, of which `n` are left: those that are not 0xFFFF are stored.
  unfoldable pub store_samples : ℕ → ℕ → M10Driver A → Option (M10Driver A)
  store_samples zero i d = some d
  store_samples (suc n) i d = elim (raw_at d.packet_bytes i == 65535) [
    | true ↦ store_samples n (i + 2) d
    | false ↦ elim (get_elem? d.scan_data d.scan_index) [
      | none ↦ none
      | some point ↦ store_samples n (i + 2) (record d {
        scan_data = set d.scan_data d.scan_index (store_distance (raw_at d.packet_bytes i) point);
        scan_index = d.scan_index + 1;
      })
    ]
  ]

  -- The angles of the last `count` points that were stored, from the one `k` of them on.
  unfoldable pub store_angles : ℕ → ℕ → A → ℕ → List (ScanPoint A) → ℕ → List (ScanPoint A)
  store_angles zero k degree count points first = points
  store_angles (suc n) k degree count points first =
      let rest = store_angles n (suc k) degree count in
      elim (get_elem? points (first + k)) [
        | none ↦ rest points first
        | some point ↦
            rest (set points (first + k) (record point { angle = g.sample_angle degree count k }))
              first
      ]

  abbrev pub no_point : ScanPoint A
  no_point = record { angle = g.zero_; distance = g.zero_; quality = 0 }

  -- The end of a packet: if its degree is below the last one, the scan is ready.
  unfoldable pub finish_packet : A → M10Driver A → M10Driver A
  finish_packet degree d =
      if g.below degree d.last_degree
      then record d {
        scan_index = 0;
        scan_data_ready = d.scan_data;
        scan_data = replicate (length d.scan_data) no_point;
        last_degree = degree;
      }
      else record d { last_degree = degree }

  -- A packet that begins at `i`.
  unfoldable pub take_packet : ℕ → M10Driver A → Option (M10Driver A)
  take_packet i d =
      let degree = g.degree_of (raw_at d.packet_bytes (i + 2)) in
      elim (store_samples 42 (i + 6) d) [
        | none ↦ none
        | some stored ↦
            let count = stored.scan_index - d.scan_index in
            some (
              finish_packet degree (record stored {
                scan_data = store_angles count 0 degree count stored.scan_data d.scan_index;
              }))
      ]

  -- The bytes are moved, and read on behind them.
  unfoldable pub align : ℕ → ℕ → M10Driver A → Port → M10Driver A × Bool × Port
  align i timeout d p =
      let moved = write_at 0 (take (92 - i) (drop (92 - i) d.packet_bytes)) d.packet_bytes in
      let (bytes, number, p') = read i timeout p in
      let whole : Bool = elim number [ none ↦ false | some n ↦ n == i ] in
      (record d { packet_bytes = write_at (92 - i) bytes moved }, whole, p')

  -- `readPacketM10` from `i` on, with `n` bytes left: whether it succeeds.
  unfoldable pub read_packet_from :
      ℕ → ℕ → ℕ → M10Driver A → Port → Option (M10Driver A × Bool × Port)
  read_packet_from zero i timeout d p = some (d, true, p)
  read_packet_from (suc n) i timeout d p =
      let begins = (byte_at d.packet_bytes i == 165) && (byte_at d.packet_bytes (i + 1) == 90) in
      let aligned = if i == 0 then (d, true, p) else align i timeout d p in
      elim begins [
        | false ↦ read_packet_from n (i + 1) timeout d p
        | true ↦ elim aligned.1 [
          | false ↦ some (aligned.0, false, aligned.2)
          | true ↦ elim (take_packet i aligned.0) [
            | none ↦ none
            | some d' ↦ read_packet_from n (i + 1) timeout d' aligned.2
          ]
        ]
      ]

  -- `readPacketM10`
  unfoldable pub read_packet_m10 : ℕ → ℕ → M10Driver A → Port → Option (M10Driver A × Bool × Port)
  read_packet_m10 count timeout d p = read_packet_from count 0 timeout d p

  -- `grabScanDataM10`: the driver, the scan if there is one, and the port.
  unfoldable pub grab_scan_data_m10 :
      ℕ → M10Driver A → Port → Option (M10Driver A × Option (List (ScanPoint A)) × Port)
  grab_scan_data_m10 timeout d p =
      let (rc, p1) = wait_readable (timeout + 1) timeout p in
      let (bytes, number, p2) = read 92 200 p1 in
      let filled : M10Driver A = record d { packet_bytes = write_at 0 bytes d.packet_bytes } in
      let count : ℕ = elim number [ none ↦ 0 | some n ↦ n ] in
      if not (is_readable rc)
      then some (d, none, p1)
      else if count == 0
      then some (filled, none, p2)
      else elim (read_packet_m10 count 200 filled p2) [
        | none ↦ none
        | some (d', ok, p3) ↦ some (
            if ok && ltb 0 (length d'.scan_data_ready)
            then (record d' { scan_data_ready = [] }, some d'.scan_data_ready, p3)
            else (d', none, p3))
      ]

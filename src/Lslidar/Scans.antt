-- ===== src/Lslidar/Scans.antt =====
-- The scans that the points of the packets are cut into.
use lidar.Prelude.{
  ℕ, zero, suc, true, false, ◌&&◌, List, [], ◌∷◌, ◌++◌, Option, none, some, ◌≡◌, refl, ap, sym, ◌∙◌,
  arith, ltb, if◌then◌else◌, Bool-cases, inl, inr,
}
use lidar.Lslidar.{
  Degrees, ScanPoint, LsLidarDriver, point_at, put_point, add_point, add_points, is_packet,
  parse_data_n10,
}
use lidar.Lslidar.Parsing.{
  last_angle, IsWellFormed, IsScan, put_last, Keeps, add_point-IsWellFormed,
}

module _ {A : Type 0} (g : Degrees A) where
  -- A point behind those of a scan, or the first one of the next scan.
  abbrev pub cut :
      ScanPoint A
      → List (ScanPoint A) × Option (List (ScanPoint A))
      → List (ScanPoint A) × Option (List (ScanPoint A))
  cut p ([], ready) = (p ∷ [], ready)
  cut p (q ∷ scan, ready) =
      if g.below p.angle (last_angle g q.angle scan)
      then (p ∷ [], some (q ∷ scan))
      else (q ∷ scan ++ p ∷ [], ready)

  -- Points one after the other.
  abbrev pub cut_all :
      List (ScanPoint A)
      → List (ScanPoint A) × Option (List (ScanPoint A))
      → List (ScanPoint A) × Option (List (ScanPoint A))
  cut_all [] s = s
  cut_all (p ∷ ps) s = cut_all ps (cut p s)

  -- The points of a packet from `i` on.
  abbrev pub points : ℕ → ℕ → List ℕ → List (ScanPoint A)
  points zero i buf = []
  points (suc n) i buf = point_at g buf i ∷ points n (suc i) buf

  -- The scan and the one that is ready.
  abbrev pub scans :
      LsLidarDriver A × Option (List (ScanPoint A))
      → List (ScanPoint A) × Option (List (ScanPoint A))
  scans (d, ready) = (d.scan_data, ready)

  scans-add_point :
      (scan : List (ScanPoint A)) (p : ScanPoint A) (d : LsLidarDriver A)
      (ready : Option (List (ScanPoint A)))
      → IsWellFormed g d
      → d.scan_data ≡ scan
      → scans (add_point g p (d, ready)) ≡ cut p (scan, ready)
  unfolding add_point put_point
  scans-add_point [] p d ready (size, asc, last) e =
      let first : (ltb 0 d.scan_index && g.below p.angle d.last_degree) ≡ false =
        ground (arith, e, size) in
      rw (first) (
        ap (λ s. (s, ready)) (put_last g d.scan_index d.scan_data p size ∙ ap (λ s. s ++ p ∷ []) e))
  scans-add_point (q ∷ scan) p d ready (size, asc, last) e =
      let some_ : ltb 0 d.scan_index ≡ true = ground (arith, e, size) in
      let here : last_angle g q.angle scan ≡ d.last_degree =
        ap (last_angle g d.last_degree) (sym e) ∙ last in
      elim (Bool-cases (g.below p.angle d.last_degree)) [
        | inl full ↦
            rw (here, some_, full)
              (ap (λ s. (s, some d.scan_data)) (put_last g 0 [] p refl)
                ∙ ap (λ s. (p ∷ [], some s)) e)
        | inr more ↦
            rw (here, some_, more)
              (ap (λ s. (s, ready))
                (put_last g d.scan_index d.scan_data p size ∙ ap (λ s. s ++ p ∷ []) e))
      ]

  scans-add_points :
      (n i : ℕ) (buf : List ℕ) (d : LsLidarDriver A) (ready : Option (List (ScanPoint A)))
      → IsWellFormed g d
      → IsScan g ready
      → scans (add_points g n i buf (d, ready)) ≡ cut_all (points n i buf) (d.scan_data, ready)
  unfolding add_points Keeps
  scans-add_points zero i buf d ready h r = refl
  scans-add_points (suc n) i buf d ready h r =
      let p = point_at g buf i in
      let (ok, r') = add_point-IsWellFormed g p d ready h r in
      let next = add_point g p (d, ready) in
      scans-add_points n (suc i) buf next.0 next.1 ok r'
      ∙ ap (cut_all (points n (suc i) buf)) (scans-add_point d.scan_data p d ready h refl)

  -- If the scan that is put together has as many points as `scanIndex` says, in the order of their
  -- angles up to `lastDegree`, then what has the head and the checksum of a packet adds its 16 points
  -- to the scan, in their order: a point whose angle is below the one before it begins the next scan,
  -- and makes the one that it ends ready. Anything else adds nothing.
  pub scans-parse_data_n10 :
      (d : LsLidarDriver A)
      → IsWellFormed g d
      → scans (parse_data_n10 g d) ≡ (
          if is_packet d.packet_bytes
          then cut_all (points 16 0 d.packet_bytes) (d.scan_data, none)
          else (d.scan_data, none))
  unfolding parse_data_n10
  scans-parse_data_n10 d h = elim (Bool-cases (is_packet d.packet_bytes)) [
    | inl packet ↦ rw (packet) (scans-add_points 16 0 d.packet_bytes d none h tt)
    | inr other ↦ rw (other) refl
  ]

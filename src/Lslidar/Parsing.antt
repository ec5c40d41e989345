-- ===== src/Lslidar/Parsing.antt =====
-- The scans that a driver of an N10 puts together.
use lidar.Prelude.{
  ℕ, zero, suc, ◌+◌, ◌-◌, ◌<◌, false, ◌&&◌, List, [], ◌∷◌, ◌++◌, Option, none, some, ◌≡◌, refl, ap,
  sym, subst, ◌∙◌, inl, inr, ◌⊎◌, arith, ltb, leb, Bool-cases, Option-cases, length, set, take_all,
  replicate, length-append,
}
use lidar.Lslidar.{
  Degrees, ScanPoint, LsLidarDriver, resize, point_at, put_point, add_point, add_points, is_packet,
  parse_data_n10, receive, forget_bytes, take_bytes, grab_scan_data_n10,
}

module _ {A : Type 0} (g : Degrees A) where
  -- No angle is below the one before it.
  abbrev pub IsAscending : List (ScanPoint A) → Type 0
  IsAscending [] = Unit {0}
  IsAscending (p ∷ []) = Unit {0}
  IsAscending (p ∷ q ∷ ps) = (g.below q.angle p.angle ≡ false) × IsAscending (q ∷ ps)

  -- The angle of the last point, after `a`.
  abbrev pub last_angle : A → List (ScanPoint A) → A
  last_angle a [] = a
  last_angle a (p ∷ ps) = last_angle p.angle ps

  -- The scan that is put together has as many points as `scanIndex` says, in the order of their angles,
  -- and `lastDegree` is the last of these.
  abbrev pub IsWellFormed : LsLidarDriver A → Type 0
  IsWellFormed d =
      (length d.scan_data ≡ d.scan_index)
      × IsAscending d.scan_data
      × (last_angle d.last_degree d.scan_data ≡ d.last_degree)

  set_last :
      (xs : List (ScanPoint A)) (y x : ScanPoint A)
      → set (xs ++ y ∷ []) (length xs) x ≡ xs ++ x ∷ []
  set_last [] y x = refl
  set_last (z ∷ xs) y x = ap (λ r. z ∷ r) (set_last xs y x)

  pub put_last :
      (n : ℕ) (xs : List (ScanPoint A)) (x : ScanPoint A)
      → length xs ≡ n
      → set (resize g (n + 1) xs) n x ≡ xs ++ x ∷ []
  unfolding resize
  put_last n xs x h =
      let fill : ScanPoint A = record { angle = g.zero_; distance = g.zero_; quality = 0 } in
      let all = take_all (n + 1) xs (omega arith) in
      let one : n + 1 - length xs ≡ 1 = omega arith in
      ap (λ ys. set (ys ++ replicate (n + 1 - length xs) fill) n x) all
      ∙ ap (λ k. set (xs ++ replicate k fill) n x) one
      ∙ ap (λ k. set (xs ++ fill ∷ []) k x) (sym h)
      ∙ set_last xs fill x

  last-append :
      (a : A) (xs : List (ScanPoint A)) (x : ScanPoint A) → last_angle a (xs ++ x ∷ []) ≡ x.angle
  last-append a [] x = refl
  last-append a (y ∷ xs) x = last-append y.angle xs x

  append-IsAscending :
      (xs : List (ScanPoint A)) (y x : ScanPoint A)
      → IsAscending (y ∷ xs)
      → g.below x.angle (last_angle y.angle xs) ≡ false
      → IsAscending (y ∷ xs ++ x ∷ [])
  append-IsAscending [] y x h b = (b, tt)
  append-IsAscending (z ∷ xs) y x (first, h) b = (first, append-IsAscending xs z x h b)

  put-IsAscending :
      (a : A) (xs : List (ScanPoint A)) (x : ScanPoint A)
      → IsAscending xs
      → (xs ≡ []) ⊎ (g.below x.angle (last_angle a xs) ≡ false)
      → IsAscending (xs ++ x ∷ [])
  put-IsAscending a [] x h b = tt
  put-IsAscending a (y ∷ xs) x h (inl e) = ground (arith, e)
  put-IsAscending a (y ∷ xs) x h (inr b) = append-IsAscending xs y x h b

  -- A scan that is ready has points, in the order of their angles.
  abbrev pub IsScan : Option (List (ScanPoint A)) → Type 0
  IsScan none = Unit {0}
  IsScan (some scan) = (0 < length scan) × IsAscending scan

  empty : (xs : List (ScanPoint A)) → length xs ≡ 0 → xs ≡ []
  empty [] h = refl
  empty (x ∷ xs) h = ground (arith, h)

  put_point-IsWellFormed :
      (n : ℕ) (scan : List (ScanPoint A)) (p : ScanPoint A) (a : A) (d : LsLidarDriver A)
      → length scan ≡ n
      → IsAscending scan
      → (scan ≡ []) ⊎ (g.below p.angle (last_angle a scan) ≡ false)
      → IsWellFormed (put_point g n scan p d)
  unfolding put_point
  put_point-IsWellFormed n scan p a d size asc b = rw (put_last n scan p size) (
    length-append scan (p ∷ []) ∙ ap (λ k. k + 1) size,
    put-IsAscending a scan p asc b,
    last-append p.angle scan p,
  )

  unfoldable pub Keeps : LsLidarDriver A × Option (List (ScanPoint A)) → Type 0
  Keeps s = IsWellFormed s.0 × IsScan s.1

  pub add_point-IsWellFormed :
      (p : ScanPoint A) (d : LsLidarDriver A) (ready : Option (List (ScanPoint A)))
      → IsWellFormed d
      → IsScan ready
      → Keeps (add_point g p (d, ready))
  unfolding add_point Keeps
  add_point-IsWellFormed p d ready (size, asc, last) r =
      elim (Bool-cases (ltb 0 d.scan_index && g.below p.angle d.last_degree)) [
        | inl full ↦
            let some_ : 0 < length d.scan_data = ground (arith, full, size) in
            rw (full) (put_point-IsWellFormed 0 [] p p.angle d refl tt (inl refl), (some_, asc))
        | inr more ↦
            let fits : (d.scan_data ≡ [])
                ⊎ (g.below p.angle (last_angle d.last_degree d.scan_data) ≡ false) =
              elim (Bool-cases (ltb 0 d.scan_index)) [
                | inl old ↦ inr (ground (arith, old, more, last))
                | inr new ↦ inl (empty d.scan_data (ground (arith, new, size)))
              ] in
            rw (more)
              (put_point-IsWellFormed d.scan_index d.scan_data p d.last_degree d size asc fits, r)
      ]

  add_points-IsWellFormed :
      (n i : ℕ) (buf : List ℕ) (s : LsLidarDriver A × Option (List (ScanPoint A)))
      → Keeps s
      → Keeps (add_points g n i buf s)
  unfolding add_points Keeps
  add_points-IsWellFormed zero i buf s h = h
  add_points-IsWellFormed (suc n) i buf (d, ready) (ok, r) =
      add_points-IsWellFormed n (suc i) buf (add_point g (point_at g buf i) (d, ready))
        (add_point-IsWellFormed (point_at g buf i) d ready ok r)

  take_bytes-IsWellFormed :
      (bytes : List ℕ) (d : LsLidarDriver A) → IsWellFormed d → Keeps (take_bytes g bytes d)
  unfolding take_bytes parse_data_n10 receive forget_bytes Keeps
  take_bytes-IsWellFormed bytes d h = elim (Bool-cases (leb 47 (d.total_bytes + length bytes))) [
    | inl enough ↦ elim (Bool-cases (is_packet (receive g bytes d).packet_bytes)) [
      | inl packet ↦
          rw (enough, packet)
            (add_points-IsWellFormed 16 0 (receive g bytes d).packet_bytes (receive g bytes d, none)
              (h, tt))
      | inr other ↦ rw (enough, other) (h, tt)
    ]
    | inr few ↦ rw (few) (h, tt)
  ]

  -- If the scan that is put together has as many points as `scanIndex` says, in the order of their
  -- angles up to `lastDegree`, then this holds after `grabScanDataN10` too, whatever the port gives,
  -- and a scan that is grabbed has points, in the order of their angles.
  pub grab_scan_data_n10-IsWellFormed :
      (reads : List (List ℕ)) (d : LsLidarDriver A)
      → IsWellFormed d
      → IsWellFormed (grab_scan_data_n10 g reads d).0 × IsScan (grab_scan_data_n10 g reads d).1
  unfolding grab_scan_data_n10 Keeps
  grab_scan_data_n10-IsWellFormed [] d h = (h, tt)
  grab_scan_data_n10-IsWellFormed ([] ∷ reads) d h = (h, tt)
  grab_scan_data_n10-IsWellFormed ((b ∷ bytes) ∷ reads) d h =
      let (ok, scan) = take_bytes-IsWellFormed (b ∷ bytes) d h in
      let next = (take_bytes g (b ∷ bytes) d).0 in
      elim (Option-cases (take_bytes g (b ∷ bytes) d).1) [
        | inl more ↦ rw (more, grab_scan_data_n10) (grab_scan_data_n10-IsWellFormed reads next ok)
        | inr (found, done) ↦ rw (done, grab_scan_data_n10) (ok, subst IsScan done scan)
      ]

-- ===== src/Player/Search.antt =====
-- `nextFrame` ends: its search for a header moves on in each round.
use lidar.Prelude.{
  ℕ, zero, suc, ◌+◌, ◌-◌, ◌<◌, Bool, false, some, ◌≡◌, refl, ap, arith, ltb, leb, ◌==◌,
  if◌then◌else◌, inl, inr, Bool-cases,
}
use lidar.Packed.Format.{Header, header, frame_header, is_type}
use lidar.Packed.Stream.{IFile, is_open, is_eof, tell, seek, read, get_header}
use lidar.Packed.Sync.{IsSound}
use lidar.Player.{
  ObsvObjects, PackedPlayer, at_eof, next_header, find_header, next_objects, next_frame,
}

abbrev moved : IFile → ℕ → IFile
moved f pos = record f { buffer_pos = some pos }

abbrev step : IFile → ℕ → ℕ
step f pos = if ltb f.file_size (pos + 16) then f.file_size - pos else 16

abbrev sound_moved : (f : IFile) (v : IsSound f) (pos : ℕ) → IsSound (moved f pos)
sound_moved f v pos = record { pos = pos; open_at = refl; size = v.size }

header_moves :
    (h : Header) (f : IFile) (v : IsSound f) → (get_header h f).0 ≡ moved f (v.pos + step f v.pos)
unfolding get_header read
header_moves h f v = ground (arith, v.open_at)

-- A round of the search: the file is behind the place where it was.
next_moves :
    (h : Header) (p : PackedPlayer) (f : IFile) (v : IsSound f)
    → p.file ≡ some f
    → (pos : ℕ) × ((next_header h p).0 ≡ record p { file = some (moved f pos) })
      × ((v.pos < f.file_size) → v.pos < pos)
unfolding next_header seek tell is_open
next_moves h p f v e =
    let (f', h', done) = get_header h f in
    let m = header_moves h f v in
    elim (Bool-cases done) [
      | inl y ↦ (v.pos + step f v.pos, ground (arith, e, m, y), λ l. ground (arith, l))
      | inr n ↦ elim (Bool-cases (h'.zero_ == 0)) [
        | inl z ↦ (v.pos + step f v.pos, ground (arith, e, m, n, z), λ l. ground (arith, l))
        | inr z ↦ (v.pos + 4, ground (arith, e, m, n, z, v.open_at), λ l. omega arith)
      ]
    ]

search_ends :
    (fuel : ℕ) (h : Header) (p : PackedPlayer) (f : IFile) (v : IsSound f)
    → p.file ≡ some f
    → f.file_size < fuel + v.pos
    → 0 < fuel
    → (r : PackedPlayer × Header) × (find_header fuel h p ≡ some r)
unfolding find_header at_eof is_eof
search_ends zero h p f v e l z = absurd (omega arith)
search_ends (suc fuel) h p f v e l z =
    let (p', h', type) = next_header h p in
    let (pos, m, on) = next_moves h p f v e in
    elim (Bool-cases (leb f.file_size v.pos)) [
      | inl end ↦ ((p, h), ground (arith, e, v.open_at, end))
      | inr more ↦
          let less : v.pos < f.file_size = ground (arith, more) in
          let (r, s) =
            search_ends fuel h' p' (moved f pos) (sound_moved f v pos) (ap (λ q. q.file) m)
              (omega (arith, on less)) (omega (arith, on less)) in
          elim (Bool-cases (is_type h frame_header)) [
            | inl typed ↦ ((p, h), ground (arith, typed))
            | inr other ↦ (r, ground (arith, e, v.open_at, more, other, s))
          ]
    ]

-- `nextFrame( objects )` ends on every open file, whatever its bytes, and wherever the file stands: its
-- search needs at most one round more than the file has bytes.
next_frame_total :
    (objects : ObsvObjects) (p : PackedPlayer) (f : IFile)
    → IsSound f
    → p.file ≡ some f
    → (r : PackedPlayer × ObsvObjects × Bool) × (next_frame objects p ≡ some r)
unfolding next_frame
next_frame_total objects p f v e =
    let (p1, h1, type) = next_header (header 0 frame_header) p in
    let (pos, m, on) = next_moves (header 0 frame_header) p f v e in
    let ((p2, h2), s) =
      search_ends (f.file_size + 1) h1 p1 (moved f pos) (sound_moved f v pos) (ap (λ q. q.file) m)
        (omega arith) (omega arith) in
    (
      if is_type h2 frame_header then next_objects objects h2 p2 else (p2, objects, false),
      ground (arith, e, s),
    )

-- ===== src/Packed/Sync.antt =====
-- `sync`: the next header in a file, from any place between two frames.
use mathlib.Core.List.{append-nil}
use lidar.Prelude.{
  ℕ, zero, suc, ◌+◌, ◌-◌, ◌%◌, ◌^◌, ◌<◌, ◌≤◌, true, false, ◌||◌, List, [], ◌∷◌, ◌++◌, Option, none,
  some, ◌≡◌, ◌≢◌, refl, ap, sym, ◌∙◌, ◌⊎◌, inl, inr, arith, ◌==◌, if◌then◌else◌, length,
  length-append, take, drop, length-drop, length-take, take-append, from_le, Option-cases,
  drop-append,
}
use lidar.Packed.Format.{
  Header, header, frame_header, start_header, is_type, encode_header, decode_header,
}
use lidar.Packed.Fields.{IsHeader, length-encode_header, decode-encode_header}
use lidar.Packed.RoundTrip.{At, read-At, drop-drop}
use lidar.Packed.Stream.{
  IFile, is_open, is_eof, tell, seek, read, Round, found, ended, further, sync_round, sync_loop,
  sync, get_header, first_time, open_buffer, close,
}

-- The file is open, and its size is that of its bytes.
pub record IsSound (f : IFile) : Type 0 where
  pub pos : ℕ
  pub open_at : f.buffer_pos ≡ some pos
  pub size : f.file_size ≡ length f.buffer

Round-cases :
    (r : Round)
    → ((f : IFile) × (t : ℕ) × (r ≡ found f t))
      ⊎ ((f : IFile) × (r ≡ ended f))
      ⊎ ((f : IFile) × (r ≡ further f))
Round-cases (found f t) = inl (f, t, refl)
Round-cases (ended f) = inr (inl (f, refl))
Round-cases (further f) = inr (inr (f, refl))

abbrev Goes : IFile → ℕ → Round → Type 0
Goes f pos (found f' t) = Unit {0}
Goes f pos (ended f') = Unit {0}
Goes f pos (further f') =
    (f'.buffer_pos ≡ some (pos + 4))
    × (f'.file_size ≡ f.file_size)
    × (f'.buffer ≡ f.buffer)
    × (pos + 16 ≤ f.file_size)

-- A round that goes on is four bytes further, and was not at the end.
sync_round-Goes : (f : IFile) (v : IsSound f) → Goes f v.pos (sync_round f)
unfolding sync_round read tell seek is_eof is_open
sync_round-Goes f v = ground (
  arith,
  v.open_at,
  v.size,
  length-drop v.pos f.buffer,
  length-take 16 (drop v.pos f.buffer),
  length-take (f.file_size - v.pos) (drop v.pos f.buffer),
)

sync_loop_total :
    (fuel : ℕ) (f : IFile) (v : IsSound f)
    → f.file_size + 1 < fuel + v.pos
    → 0 < fuel
    → (r : IFile × Option ℕ) × (sync_loop fuel f ≡ some r)
unfolding sync_loop
sync_loop_total zero f v h p = absurd (omega arith)
sync_loop_total (suc fuel) f v h p = elim (Round-cases (sync_round f)) [
  | inl (f', t, e) ↦ ((f', some t), rw (sync_loop, e) refl)
  | inr (inl (f', e)) ↦ ((f', none), rw (sync_loop, e) refl)
  | inr (inr (f', e)) ↦
      let (o, s, b, i) = rw e at (sync_round-Goes f v) in
      let next : IsSound f' = record {
        pos = v.pos + 4;
        open_at = o;
        size = s ∙ v.size ∙ ap length (sym b);
      } in
      let (r, e') = sync_loop_total fuel f' next (omega arith) (omega arith) in
      (r, rw (sync_loop, e) e')
]

-- On an open file `sync` ends within as many rounds as the file has bytes, and two more.
pub sync_total : (f : IFile) → IsSound f → (r : IFile × ℕ) × (sync f ≡ some r)
unfolding sync is_open
sync_total f v =
    let ((f', t), e) = sync_loop_total (f.file_size + 2) f v (omega arith) (omega arith) in
    elim (Option-cases t) [
      | inl none_ ↦ ((f', 0), ground (arith, v.open_at))
      | inr (time, some_) ↦
          let at_ = (time + 2 ^ 64 - f'.begin_time) % 2 ^ 64 in
          ((record f' { current_time = at_ }, at_), ground (arith, v.open_at))
    ]

-- Four bytes that are not all zero.
abbrev pub IsWord : List ℕ → Type 0
IsWord w = (length w ≡ 4) × (from_le w ≢ 0)

take_front : (n : ℕ) (w rest : List ℕ) → length w ≡ n → take n (w ++ rest) ≡ w
take_front n w rest e = rw (← e) (take-append w rest)

take-take : (a b : ℕ) (xs : List ℕ) → a ≤ b → take a (take b xs) ≡ take a xs
take-take zero b xs h = refl
take-take (suc a) zero xs h = absurd (omega arith)
take-take (suc a) (suc b) [] h = refl
take-take (suc a) (suc b) (x ∷ xs) h = ap (λ t. x ∷ t) (take-take a b xs (omega arith))

pub skip_round :
    (f : IFile) (w rest : List ℕ)
    → IsWord w
    → 12 ≤ length rest
    → (v : At f (w ++ rest))
    → (f' : IFile) × (sync_round f ≡ further f') × At f' rest × (f'.begin_time ≡ f.begin_time)
unfolding sync_round read tell seek is_eof is_open decode_header
skip_round f w rest (len, nonzero) long v =
    let n1 = ap length v.unread in
    let n2 = length-append w rest in
    let n3 = length-drop v.pos f.buffer in
    let room : v.pos + 16 ≤ length f.buffer = omega (arith, n1, n2, n3, v.inside, len, long) in
    let n4 : length (take 16 (w ++ rest)) ≡ 16 =
      omega (arith, length-take 16 (w ++ rest), n2, len, long) in
    let word : take 4 (take 16 (w ++ rest)) ≡ w =
      take-take 4 16 (w ++ rest) (omega arith) ∙ take_front 4 w rest len in
    (
      record f { buffer_pos = some (v.pos + 4) },
      ground (arith, v.open_at, v.size, room, v.unread, n4, word),
      record {
        pos = v.pos + 4;
        open_at = refl;
        unread = drop-drop v.pos 4 f.buffer ∙ rw v.unread (rw (← len) (drop-append w rest));
        size = v.size;
        inside = omega (arith, room);
      },
      refl,
    )

-- Headers that `sync` stops at.
pub record IsMark (h : Header) : Type 0 where
  pub header_ok : IsHeader h
  pub zero_first : h.zero_ ≡ 0
  pub typed : (is_type h frame_header || is_type h start_header) ≡ true

pub found_round :
    (f : IFile) (h : Header) (rest : List ℕ)
    → IsMark h
    → (v : At f (encode_header h ++ rest))
    → (f' : IFile) × (sync_round f ≡ found f' h.timestamp)
      × At f' (encode_header h ++ rest)
      × (f'.begin_time ≡ f.begin_time)
unfolding sync_round tell seek is_open
found_round f h rest m v =
    let (e, after) = read-At f (encode_header h) rest v in
    let e' = rw (length-encode_header h) at e in
    let decoded : decode_header (encode_header h) ≡ h =
      rw append-nil at (decode-encode_header h [] m.header_ok) in
    (
      record f { buffer_pos = some v.pos },
      ground (arith, v.open_at, e', decoded, length-encode_header h, m.zero_first, m.typed),
      record { pos = v.pos; open_at = refl; unread = v.unread; size = v.size; inside = v.inside },
      refl,
    )

-- Reading a header moves an open file on by its sixteen bytes, if it is there.
header_moves :
    (h : Header) (f : IFile) (v : IsSound f)
    → let r = get_header h f in
      (r.2 ≡ false)
      ⊎ ((r.0.buffer_pos ≡ some (v.pos + 16))
          × (v.pos + 16 ≤ f.file_size)
          × (r.0.file_size ≡ f.file_size)
          × (r.0.buffer ≡ f.buffer))
unfolding get_header read
header_moves h f v = ground (
  arith,
  v.open_at,
  v.size,
  length-drop v.pos f.buffer,
  length-take 16 (drop v.pos f.buffer),
  length-take (f.file_size - v.pos) (drop v.pos f.buffer),
)

first_time_total :
    (fuel : ℕ) (f : IFile) (v : IsSound f)
    → f.file_size < fuel + v.pos
    → 0 < fuel
    → (r : IFile) × (first_time fuel f ≡ some r)
unfolding first_time
first_time_total zero f v h p = absurd (omega arith)
first_time_total (suc fuel) f v h p =
    let h0 = header 0 frame_header in
    let (f', h', done) = get_header h0 f in
    elim (header_moves h0 f v) [
      | inl stops ↦ (if f.begin_time == 0 then f' else f, ground (arith, stops))
      | inr (o, i, s, b) ↦
          let next : IsSound (record f' { begin_time = h'.timestamp }) = record {
            pos = v.pos + 16;
            open_at = o;
            size = s ∙ v.size ∙ ap length (sym b);
          } in
          let (r, e) =
            first_time_total fuel (record f' { begin_time = h'.timestamp }) next (omega arith)
              (omega arith) in
          (if f.begin_time == 0 then (if done then r else f') else f, ground (arith, e))
    ]

-- `openBuffer` ends on every buffer, whatever its bytes, and succeeds on those that are not empty.
pub open_buffer_total :
    (now reftimestamp b : ℕ) (bs : List ℕ) (f : IFile)
    → (f' : IFile) × (open_buffer now reftimestamp (b ∷ bs) f ≡ some (f', true))
unfolding open_buffer close
open_buffer_total now reftimestamp b bs f =
    let opened : IFile = record f {
      buffer = b ∷ bs;
      buffer_pos = some 0;
      file_size = length (b ∷ bs);
      begin_time = 0;
      start_time = if reftimestamp == 0 then now else reftimestamp;
    } in
    let sound : IsSound opened = record { pos = 0; open_at = refl; size = refl } in
    let (r, e) = first_time_total (length (b ∷ bs) + 1) opened sound (omega arith) (omega arith) in
    (seek 0 r, ground (arith, e))

-- ===== src/Packed/Resync.antt =====
-- `sync` from inside of a frame: the objects that the program writes hold no word that could be taken
-- for the start of a header, so the next header is found, and not an earlier place.
use lidar.Prelude.{
  ℕ, zero, suc, ◌+◌, ◌-◌, ◌%◌, ◌^◌, ◌<◌, ◌≤◌, List, [], ◌∷◌, ◌++◌, some, ◌≡◌, ◌≢◌, refl, ap, subst,
  ◌∙◌, arith, length, length-append, from_le, le_bytes, length-drop,
}
use lidar.Packed.Format.{Header, Binary, binary, not_zero, encode_header, encode_binary}
use lidar.Packed.Fields.{length-encode_header}
use lidar.Packed.RoundTrip.{At}
use lidar.Packed.Sync.{IsWord, IsMark, skip_round, found_round}
use lidar.Packed.Stream.{IFile, is_open, encode_objects, sync_loop, sync}

abbrev AllWords : List (List ℕ) → Type 0
AllWords [] = Unit {0}
AllWords (w ∷ ws) = IsWord w × AllWords ws

abbrev join : List (List ℕ) → List ℕ → List ℕ
join [] rest = rest
join (w ∷ ws) rest = w ++ join ws rest

length-join : (ws : List (List ℕ)) (rest : List ℕ) → length rest ≤ length (join ws rest)
length-join [] rest = omega arith
length-join (w ∷ ws) rest = omega (arith, length-append w (join ws rest), length-join ws rest)

sync_loop_finds :
    (fuel : ℕ) (ws : List (List ℕ)) (h : Header) (rest : List ℕ) (f : IFile)
    → AllWords ws
    → IsMark h
    → length ws < fuel
    → At f (join ws (encode_header h ++ rest))
    → (f' : IFile) × (sync_loop fuel f ≡ some (f', some h.timestamp))
      × At f' (encode_header h ++ rest)
      × (f'.begin_time ≡ f.begin_time)
unfolding sync_loop
sync_loop_finds zero ws h rest f a m l v = absurd (omega arith)
sync_loop_finds (suc fuel) [] h rest f a m l v =
    let (f', e, v', b) = found_round f h rest m v in (f', rw (sync_loop, e) refl, v', b)
sync_loop_finds (suc fuel) (w ∷ ws) h rest f a m l v =
    let tail = encode_header h ++ rest in
    let (f1, e, v1, b1) =
      skip_round f w (join ws tail) a.0
        (omega (
          arith,
          length-join ws tail,
          length-append (encode_header h) rest,
          length-encode_header h,
        ))
        v in
    let (f2, e2, v2, b2) = sync_loop_finds fuel ws h rest f1 a.1 m (omega arith) v1 in
    (f2, rw (sync_loop, e) e2, v2, b2 ∙ b1)

-- An object as `Binary( … )` makes it, of an id that is not 0.
pub record IsSolid (b : Binary) : Type 0 where
  pub tid_ok : b.tid ≢ 0
  pub tid_bound : b.tid < 2 ^ 32
  pub x_ok : b.x ≢ 0
  pub x_bound : b.x < 2 ^ 16
  pub size_ok : b.size ≢ 0
  pub size_bound : b.size < 2 ^ 16

pub binary-IsSolid :
    (tid x y size flags : ℕ) → tid % 2 ^ 32 ≢ 0 → IsSolid (binary tid x y size flags)
unfolding binary not_zero
binary-IsSolid tid x y size flags h = ground arith

abbrev pub AllSolid : List Binary → Type 0
AllSolid [] = Unit {0}
AllSolid (b ∷ bs) = IsSolid b × AllSolid bs

abbrev words : List Binary → List (List ℕ)
words [] = []
words (b ∷ bs) =
    le_bytes 4 b.tid
    ∷ (le_bytes 2 b.x ++ le_bytes 2 b.y)
    ∷ (le_bytes 2 b.size ++ le_bytes 2 b.flags)
    ∷ words bs

low-IsWord : (x y : ℕ) → x ≢ 0 → x < 2 ^ 16 → IsWord (le_bytes 2 x ++ le_bytes 2 y)
unfolding le_bytes from_le
low-IsWord x y h b = (refl, omega arith)

tid-IsWord : (t : ℕ) → t ≢ 0 → t < 2 ^ 32 → IsWord (le_bytes 4 t)
unfolding le_bytes from_le
tid-IsWord t h b = (refl, omega arith)

words_ok : (bs : List Binary) → AllSolid bs → AllWords (words bs)
words_ok [] v = tt
words_ok (b ∷ bs) (v, vs) = (
  tid-IsWord b.tid v.tid_ok v.tid_bound,
  (
    low-IsWord b.x b.y v.x_ok v.x_bound,
    (low-IsWord b.size b.flags v.size_ok v.size_bound, words_ok bs vs),
  ),
)

join-words : (bs : List Binary) (rest : List ℕ) → encode_objects bs ++ rest ≡ join (words bs) rest
unfolding encode_objects encode_binary le_bytes
join-words [] rest = refl
join-words (b ∷ bs) rest = rw (join-words bs rest) refl

count_words : (ws : List (List ℕ)) (rest : List ℕ) → AllWords ws → length ws ≤ length (join ws rest)
count_words [] rest a = omega arith
count_words (w ∷ ws) rest a =
    omega (arith, length-append w (join ws rest), count_words ws rest a.1, a.0.0)

-- From the first object of a frame, or from any later one, `sync` stops exactly at the header that
-- follows the frame's objects, if the objects are as the program makes them, of ids that are not 0,
-- and the header is one of a frame or of a start; the result is the header's time since the file's
-- beginning.
pub sync-objects :
    (bs : List Binary) (h : Header) (rest : List ℕ) (f : IFile)
    → AllSolid bs
    → IsMark h
    → At f (encode_objects bs ++ (encode_header h ++ rest))
    → (f' : IFile) × (sync f ≡ some (f', (h.timestamp + 2 ^ 64 - f.begin_time) % 2 ^ 64))
      × (f'.current_time ≡ (h.timestamp + 2 ^ 64 - f.begin_time) % 2 ^ 64)
      × At f' (encode_header h ++ rest)
unfolding sync is_open
sync-objects bs h rest f a m v =
    let tail = encode_header h ++ rest in
    let v' = subst (At f) (join-words bs tail) v in
    let fuel : length (words bs) < f.file_size + 2 = omega (
      arith,
      count_words (words bs) tail (words_ok bs a),
      ap length v'.unread,
      length-drop v'.pos f.buffer,
      v.size,
    ) in
    let (f', e, w, b) =
      sync_loop_finds (f.file_size + 2) (words bs) h rest f (words_ok bs a) m fuel v' in
    let time = (h.timestamp + 2 ^ 64 - f.begin_time) % 2 ^ 64 in
    (
      record f' { current_time = time },
      ground (arith, v.open_at, e, b),
      refl,
      record {
        pos = w.pos;
        open_at = w.open_at;
        unread = w.unread;
        size = w.size;
        inside = w.inside;
      },
    )

-- ===== src/Packed/RoundTrip.antt =====
-- A frame that was written is read back.
use mathlib.Core.List.{append_assoc, append-nil}
use lidar.Prelude.{
  ℕ, zero, suc, ◌+◌, ◌≤◌, true, List, [], ◌∷◌, ◌++◌, some, ◌≡◌, refl, ap, subst, ◌∙◌, arith, length,
  length-append, take, drop, take-append, drop-append, length-drop,
}
use lidar.Packed.Format.{Header, encode_header, Binary, encode_binary, decode_binary}
use lidar.Packed.Fields.{
  IsHeader, IsBinary, AllBinary, length-encode_header, length-encode_binary, decode-encode_header,
  decode-encode_binary,
}
use lidar.Packed.Stream.{
  encode_objects, IFile, read, overwrite, get_header, get_uuid, get_binary, get_objects,
}

-- The file is open, and these are the bytes from its position to its end.
pub record At (f : IFile) (rest : List ℕ) : Type 0 where
  pub pos : ℕ
  pub open_at : f.buffer_pos ≡ some pos
  pub unread : drop pos f.buffer ≡ rest
  pub size : f.file_size ≡ length f.buffer
  pub inside : pos ≤ length f.buffer

abbrev moved : ℕ → ℕ → IFile → IFile
moved pos n f = record f { buffer_pos = some (pos + n) }

pub drop-drop : (a b : ℕ) (xs : List ℕ) → drop (a + b) xs ≡ drop b (drop a xs)
drop-drop zero b xs = let e : 0 + b ≡ b = omega arith in rw e
drop-drop (suc a) zero [] = let e : suc a + 0 ≡ suc a = omega arith in rw e
drop-drop (suc a) (suc b) [] = let e : suc a + suc b ≡ suc (a + suc b) = omega arith in rw e
drop-drop (suc a) b (x ∷ xs) =
    let e : suc a + b ≡ suc (a + b) = omega arith in rw e (drop-drop a b xs)

-- Reading as many bytes as `bytes` has, where they stand.
pub read-At :
    (f : IFile) (bytes rest : List ℕ) (v : At f (bytes ++ rest))
    → (read (length bytes) f ≡ (moved v.pos (length bytes) f, bytes))
      × At (moved v.pos (length bytes) f) rest
unfolding read
read-At f bytes rest v =
    let len = ap length v.unread in
    let fits : v.pos + length bytes ≤ length f.buffer =
      omega (arith, v.inside, len, length-append bytes rest, length-drop v.pos f.buffer) in
    let piece : take (length bytes) (drop v.pos f.buffer) ≡ bytes =
      rw v.unread (take-append bytes rest) in
    (
      rw (v.open_at, read) (ground (arith, v.size, fits, piece)),
      record {
        pos = v.pos + length bytes;
        open_at = refl;
        unread = drop-drop v.pos (length bytes) f.buffer ∙ rw v.unread (drop-append bytes rest);
        size = v.size;
        inside = fits;
      },
    )

pub get_header-At :
    (h0 h : Header) (f : IFile) (rest : List ℕ)
    → IsHeader h
    → h.zero_ ≡ 0
    → (v : At f (encode_header h ++ rest))
    → (f' : IFile) × (get_header h0 f ≡ (f', h, true)) × At f' rest
unfolding get_header overwrite
get_header-At h0 h f rest ok z v =
    let (e, after) = read-At f (encode_header h) rest v in
    let e' = rw (length-encode_header h) at e in
    (
      moved v.pos (length (encode_header h)) f,
      rw (length-encode_header h)
          (rw (get_header, e', decode-encode_header h _ ok, length-encode_header h, z) refl),
      after,
    )

drop_all : (n : ℕ) (xs : List ℕ) → length xs ≤ n → drop n xs ≡ []
drop_all zero [] h = refl
drop_all zero (x ∷ xs) h = elim h [ ]
drop_all (suc n) [] h = refl
drop_all (suc n) (x ∷ xs) h = drop_all n xs (omega arith)

pub get_uuid-At :
    (old uuid : List ℕ) (f : IFile) (rest : List ℕ)
    → length old ≡ 16
    → length uuid ≡ 16
    → (v : At f (uuid ++ rest)) → (f' : IFile) × (get_uuid old f ≡ (f', uuid, true)) × At f' rest
unfolding get_uuid overwrite
get_uuid-At old uuid f rest l k v =
    let (e, after) = read-At f uuid rest v in
    let e' = rw k at e in
    let tail : drop 16 old ≡ [] = drop_all 16 old (omega arith) in
    (
      moved v.pos (length uuid) f,
      rw k (rw (get_uuid, e', k, tail) (ground (arith, append-nil uuid))),
      after,
    )

pub get_binary-At :
    (b : Binary) (f : IFile) (rest : List ℕ)
    → IsBinary b
    → (v : At f (encode_binary b ++ rest))
    → (f' : IFile) × (get_binary f ≡ (f', b, true)) × At f' rest
unfolding get_binary
get_binary-At b f rest ok v =
    let (e, after) = read-At f (encode_binary b) rest v in
    let e' = rw (length-encode_binary b) at e in
    let back : decode_binary (encode_binary b) ≡ b =
      rw append-nil at (decode-encode_binary b [] ok) in
    (
      moved v.pos (length (encode_binary b)) f,
      rw (length-encode_binary b) (rw (get_binary, e', back, length-encode_binary b) refl),
      after,
    )

pub get_objects-At :
    (bs had : List Binary) (f : IFile) (rest : List ℕ)
    → AllBinary bs
    → (v : At f (encode_objects bs ++ rest))
    → (f' : IFile) × (get_objects (length bs) had f ≡ (f', had ++ bs, true)) × At f' rest
unfolding get_objects encode_objects
get_objects-At [] had f rest ok v = (f, ground (arith, append-nil had), v)
get_objects-At (b ∷ bs) had f rest ok v =
    let (f1, e, v1) =
      get_binary-At b f (encode_objects bs ++ rest) ok.0
        (subst (At f) (append_assoc (encode_binary b) (encode_objects bs) rest) v) in
    let (f2, e2, v2) = get_objects-At bs (had ++ b ∷ []) f1 rest ok.1 v1 in
    (f2, rw (get_objects, e, e2) (ground (arith, append_assoc had (b ∷ []) bs)), v2)

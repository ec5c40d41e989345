-- ===== src/Hub/Packets.antt =====
-- Packets of frames: what is put at one end is observed at the other, and which packets are read
-- beyond their end.
use mathlib.Core.List.{append_assoc, append-nil}
use lidar.Prelude.{
  ℕ, zero, suc, ◌+◌, ◌*◌, ◌%◌, ◌^◌, ◌<◌, true, not, ◌||◌, if◌then◌else◌, List, [], ◌∷◌, ◌++◌, none,
  some, ◌≡◌, ◌↔◌, ap, sym, ◌∙◌, arith, ◌==◌, length, length-append, take, drop, length-drop,
  take-append, drop-append,
}
use lidar.Packed.Format.{
  encode_header, decode_header, Binary, encode_binary, decode_binary, BinaryFrame, frame_header,
  start_header, stop_header, is_type,
}
use lidar.Packed.Fields.{
  AllBinary, length-encode_header, length-encode_binary, decode-encode_header, decode-encode_binary,
}
use lidar.Packed.Stream.{encode_objects}
use lidar.Packed.Frames.{IsFrame, counted, encode_frame}
use lidar.Player.Replay.{counted-IsHeader}
use lidar.Hub.{frame_seen, consume, consume_objects, consume_frame, observe_frame, decode_packet}

consume-append :
    (n : ℕ) (bytes rest : List ℕ)
    → length bytes ≡ n
    → consume n (bytes ++ rest) ≡ some (bytes, rest)
unfolding consume
consume-append n bytes rest e =
    rw (← e)
      (ground (arith, length-append bytes rest, take-append bytes rest, drop-append bytes rest))

consume-encode_objects :
    (bs had : List Binary) (rest : List ℕ)
    → AllBinary bs
    → consume_objects (length bs) had (encode_objects bs ++ rest) ≡ some (had ++ bs)
unfolding consume_objects encode_objects
consume-encode_objects [] had rest v = ap some (sym (append-nil had))
consume-encode_objects (b ∷ bs) had rest (v, vs) =
    let tail = encode_objects bs ++ rest in
    let first = consume-append 12 (encode_binary b) tail (length-encode_binary b) in
    let same : decode_binary (encode_binary b) ≡ b =
      rw append-nil at (decode-encode_binary b [] v) in
    let later = consume-encode_objects bs (had ++ b ∷ []) rest vs in
    ground (
      arith,
      append_assoc (encode_binary b) (encode_objects bs) rest,
      first,
      same,
      later,
      append_assoc had (b ∷ []) bs,
    )

-- A packet with a frame that `put` would write is observed as that frame, with its number of objects in
-- the header, also if more bytes follow.
pub decode_packet-encode_frame :
    (fr : BinaryFrame) (rest : List ℕ)
    → IsFrame fr
    → decode_packet (encode_frame fr ++ rest) ≡ some (true, some (frame_seen (counted fr)))
unfolding decode_packet observe_frame consume_frame is_type
decode_packet-encode_frame fr rest v =
    let head = encode_header (counted fr).header_ in
    let body = encode_objects fr.objects ++ rest in
    let split : encode_frame fr ++ rest ≡ head ++ (fr.uuid ++ body) =
      append_assoc head (fr.uuid ++ encode_objects fr.objects) rest
      ∙ ap (λ t. head ++ t) (append_assoc fr.uuid (encode_objects fr.objects) rest) in
    let e1 = consume-append 16 head (fr.uuid ++ body) (length-encode_header (counted fr).header_) in
    let e2 = consume-append 16 fr.uuid body v.uuid_size in
    let e3 = consume-encode_objects fr.objects [] rest v.objects_ok in
    let all : length fr.objects % 2 ^ 16 ≡ length fr.objects = omega (arith, v.count) in
    let front : decode_header (head ++ (fr.uuid ++ body)) ≡ (counted fr).header_ =
      decode-encode_header (counted fr).header_ (fr.uuid ++ body) (counted-IsHeader fr v) in
    let long : length (head ++ (fr.uuid ++ body)) ≡ 16 + length (fr.uuid ++ body) =
      length-append head (fr.uuid ++ body)
      ∙ ap (λ n. n + length (fr.uuid ++ body)) (length-encode_header (counted fr).header_) in
    let h : decode_header head ≡ (counted fr).header_ =
      rw append-nil at (decode-encode_header (counted fr).header_ [] (counted-IsHeader fr v)) in
    ground (arith, split, front, long, e1, e2, e3, all, h, v.zero_first, v.typed)

short_objects :
    (count : ℕ) (had : List Binary) (bytes : List ℕ)
    → (consume_objects count had bytes ≡ none) ↔ (length bytes < 12 * count)
unfolding consume_objects consume
short_objects zero had bytes = ground arith
short_objects (suc count) had bytes = ground (
  arith,
  length-drop 12 bytes,
  short_objects count (had ++ decode_binary (take 12 bytes) ∷ []) (drop 12 bytes),
)

short_frame :
    (bytes : List ℕ)
    → (consume_frame bytes ≡ none) ↔ (length bytes < 32 + 12 * (decode_header (take 16 bytes)).size)
unfolding consume_frame consume
short_frame bytes = ground (
  arith,
  length-drop 16 bytes,
  length-drop 16 (drop 16 bytes),
  short_objects (decode_header (take 16 bytes)).size [] (drop 16 (drop 16 bytes)),
)

-- How many bytes a packet asks for by its first ones: the four of `zero`, if they are not 0; or else a
-- header, if it is one of a start or a stop; a header, a UUID and the objects, if it is one of a frame;
-- and the six up to the end of `flags`, if it is of another type.
abbrev pub needed : List ℕ → ℕ
needed bytes =
    let h = decode_header bytes in
    let type = h.flags % 256 in
    if not (h.zero_ == 0)
    then 4
    else if type == frame_header
    then 32 + 12 * (decode_header (take 16 bytes)).size
    else if type == start_header || type == stop_header
    then 16
    else 6

-- `decodePacket` reads beyond the end exactly of the packets that have fewer bytes than they ask for.
pub decode_packet-eq-none :
    (bytes : List ℕ) → (decode_packet bytes ≡ none) ↔ (length bytes < needed bytes)
unfolding decode_packet observe_frame
decode_packet-eq-none bytes = ground (arith, short_frame bytes)

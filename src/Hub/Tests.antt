-- ===== src/Hub/Tests.antt =====
-- Packets of a small frame.
use lidar.Prelude.{
  ℕ, ◌*◌, ◌<◌, true, false, List, [], ◌∷◌, ◌++◌, some, none, ◌≡◌, ◌↔◌, ◌⊎◌, refl, arith, replicate,
  length, take,
}
use lidar.Packed.Format.{BinaryFrame, binary_frame, decode_header}
use lidar.Packed.Frames.{counted, encode_frame}
use lidar.Packed.Made.{Added, add_objects, add_objects-IsFrame}
use lidar.Hub.{frame_seen, decode_packet}
use lidar.Hub.Packets.{needed, decode_packet-encode_frame, decode_packet-eq-none}

abbrev one_object : List Added
one_object = record { tid = 5; x = 120; y = 30; size = 50; flags = 0 } ∷ []

abbrev sent_frame : BinaryFrame
sent_frame = add_objects (binary_frame 0 1000 (replicate 16 9)) one_object

decode_packet-encode_frame_example :
    decode_packet (encode_frame sent_frame ++ 0 ∷ [])
    ≡ some (true, some (frame_seen (counted sent_frame)))
decode_packet-encode_frame_example =
    decode_packet-encode_frame sent_frame (0 ∷ [])
      (add_objects-IsFrame 0 1000 (replicate 16 9) one_object (omega arith) refl (omega arith))

-- A header that announces two objects, and nothing behind it.
abbrev cut_off : List ℕ
cut_off = 0 ∷ 0 ∷ 0 ∷ 0 ∷ 1 ∷ 1 ∷ 2 ∷ 0 ∷ replicate 8 1

decode_packet-eq-none_example : (decode_packet cut_off ≡ none) ↔ (length cut_off < needed cut_off)
decode_packet-eq-none_example = decode_packet-eq-none cut_off

-- Four bytes are enough to refuse a packet that does not begin with 0.
refused : decode_packet (1 ∷ 0 ∷ 0 ∷ 0 ∷ []) ≡ some (false, none)
unfolding decode_packet decode_header lidar.Prelude.from_le
refused = refl

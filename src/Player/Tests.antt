-- ===== src/Player/Tests.antt =====
-- The player on a recording of two frames.
use lidar.Prelude.{
  Bool, ℕ, ◌+◌, ◌-◌, ◌*◌, ◌/◌, ◌%◌, ◌^◌, ◌≤◌, ◌<◌, ◌≢◌, true, false, List, [], ◌∷◌, ◌++◌, some,
  none, ◌≡◌, refl, arith, replicate, length, find,
}
use lidar.Packed.Format.{
  BinaryFrame, header, binary_frame, nonzero_low, or_version2, binary, encode_header, not_zero,
  encode_binary, add,
}
use lidar.Packed.Stream.{IFile, encode_objects}
use lidar.Packed.RoundTrip.{At}
use lidar.Packed.Frames.{IsFrame, encode_all, encode_frame}
use lidar.Packed.Made.{Added, add_objects, add_objects-IsFrame}
use lidar.Player.{PackedPlayer, ObsvObjects, id_key, decode_frame}
use lidar.Player.Decode.{first_object, find-decode_frame}
use lidar.Player.Replay.{next_frames, shown_from, next_frames-encode_all}
use lidar.Player.Grab.{due, due_of, passed, minus64, grab_frame}
use lidar.Player.Due.{Ends, grab_frame-Ends}

abbrev a_uuid : List ℕ
a_uuid = replicate 16 9

abbrev twice : List Added
twice =
    record { tid = 5; x = 120; y = 30; size = 50; flags = 0 }
    ∷ record { tid = 5; x = 1; y = 7; size = 2; flags = 3 }
    ∷ []

abbrev early : BinaryFrame
early = binary_frame 0 1000 a_uuid

abbrev next : BinaryFrame
next = add_objects (binary_frame 0 1100 a_uuid) twice

early-IsFrame : IsFrame early
early-IsFrame = add_objects-IsFrame 0 1000 a_uuid [] (omega arith) refl (omega arith)

next-IsFrame : IsFrame next
next-IsFrame = add_objects-IsFrame 0 1100 a_uuid twice (omega arith) refl (omega arith)

abbrev tape : List ℕ
tape = encode_all (early ∷ next ∷ []) ++ []

abbrev tape_file : IFile
tape_file = record {
  buffer = tape;
  buffer_pos = some 0;
  file_size = length tape;
  begin_time = 1000;
  start_time = 5000;
  current_time = 0;
}

tape-At : At tape_file tape
tape-At = record { pos = 0; open_at = refl; unread = refl; size = refl; inside = omega arith }

abbrev player : PackedPlayer
player = record { file = some tape_file; frame_id = 7; last_frame = early; current_frame = early }

abbrev nothing : ObsvObjects
nothing = record { frame_id = 0; timestamp = 0; uuid = a_uuid; objects = []; valid_count = 0 }

find-decode_frame_example :
    (find id_key 5 (decode_frame next nothing).objects ≡ first_object next 5 next.objects)
    × ((decode_frame next nothing).valid_count ≡ length (decode_frame next nothing).objects)
find-decode_frame_example = find-decode_frame next nothing 5

next_frames-encode_all_example :
    (p' : PackedPlayer) × (next_frames 2 nothing player
      ≡ some (p', shown_from nothing 7 (early ∷ next ∷ [])))
    × (p'.frame_id ≡ 9)
next_frames-encode_all_example =
    next_frames-encode_all (early ∷ next ∷ []) nothing player tape_file []
      (early-IsFrame, (next-IsFrame, tt)) refl tape-At

early_passed : due_of 1000 (minus64 5090 5000) early ≡ passed
unfolding due_of minus64 binary_frame header nonzero_low
early_passed = refl

next_due : due_of 1000 (minus64 5090 5000) next ≡ due
unfolding due_of minus64 binary_frame header nonzero_low add
next_due = refl

two_frames : At tape_file (encode_all (early ∷ []) ++ (encode_frame next ++ []))
unfolding encode_objects encode_header encode_binary binary_frame header or_version2 nonzero_low add
    binary not_zero lidar.Prelude.le_bytes
two_frames = tape-At

grab_frame-Ends_example : Ends due 5101 next [] (grab_frame 2 0 5101 early 5090 player)
unfolding binary_frame
grab_frame-Ends_example =
    grab_frame-Ends due (early ∷ []) next early tape_file player [] 2 0 5101 5090
      (early-IsFrame, tt) next-IsFrame refl refl two_frames (λ e. absurd (omega arith))
      (early_passed, tt) next_due (omega arith)

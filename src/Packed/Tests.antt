-- ===== src/Packed/Tests.antt =====
-- Recording and replay on small inputs.
use lidar.Prelude.{
  ◌-◌, ℕ, ◌+◌, ◌*◌, ◌%◌, ◌^◌, ◌≤◌, ◌<◌, true, false, List, [], ◌∷◌, ◌++◌, map, some, none, ◌≡◌,
  refl, arith, replicate, length,
}
use lidar.Packed.Format.{
  header, start_header, is_type, or_version2, nonzero_low, binary, not_zero, encode_header,
  encode_binary, BinaryFrame, binary_frame, add,
}
use lidar.Packed.Stream.{OFile, IFile, open_buffer, is_eof, sync, encode_objects}
use lidar.Packed.RoundTrip.{At}
use lidar.Packed.Frames.{IsFrame, IsBlank, counted, put_all, get_all, encode_all, get_all-put_all}
use lidar.Packed.Sync.{IsMark, sync_total, open_buffer_total}
use lidar.Packed.Resync.{binary-IsSolid, sync-objects}
use lidar.Packed.Made.{Added, add_objects, add_objects-IsFrame}

abbrev some_uuid : List ℕ
some_uuid = replicate 16 77

abbrev two_objects : List Added
two_objects =
    record { tid = 5; x = 120; y = 65436; size = 50; flags = 0 }
    ∷ record { tid = 70000; x = 0; y = 7; size = 0; flags = 3 }
    ∷ []

abbrev a_frame : BinaryFrame
a_frame = add_objects (binary_frame 0 1000 some_uuid) two_objects

two_objects-IsFrame : IsFrame (add_objects (binary_frame 0 1000 some_uuid) two_objects)
two_objects-IsFrame =
    add_objects-IsFrame 0 1000 some_uuid two_objects (omega arith) refl (omega arith)

abbrev blank : BinaryFrame
blank = binary_frame 0 1 (replicate 16 0)

blank-IsBlank : IsBlank blank
unfolding binary_frame
blank-IsBlank = record { no_objects = refl; uuid_size = refl }

abbrev of_bytes : ℕ → List ℕ → IFile
of_bytes pos bytes = record {
  buffer = bytes;
  buffer_pos = some pos;
  file_size = length bytes;
  begin_time = 900;
  start_time = 0;
  current_time = 0;
}

abbrev recorded : List BinaryFrame
recorded = binary_frame 0 1000 some_uuid ∷ a_frame ∷ []

abbrev empty : OFile
empty = record { file = some []; room = 500 }

put_recorded : (put_all recorded empty).0.file ≡ some (encode_all recorded)
unfolding put_all lidar.Packed.Stream.put_frame lidar.Packed.Stream.write encode_objects
    encode_header encode_binary binary_frame header or_version2 nonzero_low add binary not_zero
    lidar.Prelude.le_bytes
put_recorded = refl

fits : length (encode_all recorded) ≤ 500
unfolding encode_objects encode_header encode_binary binary_frame header or_version2 nonzero_low add
    binary not_zero lidar.Prelude.le_bytes
fits = omega arith

get_all-put_all_example :
    ((put_all recorded empty).1 ≡ true)
    × ((f' : IFile) × (get_all 2 blank (of_bytes 0 (encode_all recorded))
          ≡ (f', map counted recorded, true))
        × (is_eof f' ≡ true))
get_all-put_all_example =
    get_all-put_all recorded blank [] empty (of_bytes 0 (encode_all recorded))
      (
        add_objects-IsFrame 0 1000 some_uuid [] (omega arith) refl (omega arith),
        (two_objects-IsFrame, tt),
      )
      blank-IsBlank refl fits put_recorded refl refl

sync_total_example : (r : IFile × ℕ) × (sync (of_bytes 3 (replicate 40 9)) ≡ some r)
sync_total_example =
    sync_total (of_bytes 3 (replicate 40 9)) record { pos = 3; open_at = refl; size = refl }

open_buffer_total_example :
    (f' : IFile) × (open_buffer 55 0 (1 ∷ 2 ∷ []) (of_bytes 0 []) ≡ some (f', true))
open_buffer_total_example = open_buffer_total 55 0 1 (2 ∷ []) (of_bytes 0 [])

a-IsMark : IsMark (header 1000 start_header)
unfolding header or_version2 nonzero_low is_type
a-IsMark = record {
  header_ok = record {
    zero_bound = omega arith;
    flags_bound = omega arith;
    size_bound = omega arith;
    time_bound = omega arith;
  };
  zero_first = refl;
  typed = refl;
}

abbrev behind : List ℕ
behind = encode_objects (binary 7 8 9 10 0 ∷ []) ++ (encode_header (header 1000 start_header) ++ [])

behind-At : At (of_bytes 0 behind) behind
behind-At = record { pos = 0; open_at = refl; unread = refl; size = refl; inside = omega arith }

time_1000 : (header 1000 start_header).timestamp ≡ 1000
unfolding header nonzero_low
time_1000 = refl

sync-objects_example :
    (f' : IFile) × (sync (of_bytes 0 behind)
      ≡ some (f', ((header 1000 start_header).timestamp + 2 ^ 64 - 900) % 2 ^ 64))
    × (f'.current_time ≡ ((header 1000 start_header).timestamp + 2 ^ 64 - 900) % 2 ^ 64)
    × At f' (encode_header (header 1000 start_header) ++ [])
sync-objects_example =
    sync-objects (binary 7 8 9 10 0 ∷ []) (header 1000 start_header) [] (of_bytes 0 behind)
      (binary-IsSolid 7 8 9 10 0 (λ e. absurd (omega arith)), tt) a-IsMark behind-At

-- ===== src/Packed/Stream.antt =====
-- `Stream`, `IFile` (buffered) and `OFile`: frames are written to one end and read from the other.
use lidar.Prelude.{
  ℕ, zero, suc, ◌+◌, ◌-◌, ◌%◌, ◌^◌, Bool, true, false, not, ◌&&◌, ◌||◌, List, [], ◌∷◌, ◌++◌, Option,
  none, some, ltb, leb, ◌==◌, if◌then◌else◌, length, take, drop,
}
use lidar.Packed.Format.{
  Header, header, frame_header, start_header, is_type, encode_header, decode_header, Binary,
  encode_binary, decode_binary, BinaryFrame,
}

-- `OFile`: what the file holds, and how many bytes the system still accepts.
pub record OFile : Type 0 where
  pub file : Option (List ℕ)
  pub room : ℕ

-- `write`
unfoldable pub write : List ℕ → OFile → OFile × Bool
write bytes o = elim o.file [
  | none ↦ (o, false)
  | some held ↦ (
    record { file = some (held ++ take o.room bytes); room = o.room - length bytes },
    leb (length bytes) o.room,
  )
]

unfoldable pub encode_objects : List Binary → List ℕ
encode_objects [] = []
encode_objects (b ∷ bs) = encode_binary b ++ encode_objects bs

-- `put( BinaryFrame & )`, which sets the `uint16_t` count in the frame's header first.
unfoldable pub put_frame : BinaryFrame → OFile → OFile × BinaryFrame × Bool
put_frame frame o =
    let h = record frame.header_ { size = length frame.objects % 2 ^ 16 } in
    let frame' = record frame { header_ = h } in
    let (o1, wrote_header) = write (encode_header h) o in
    let (o2, wrote_uuid) = write frame.uuid o1 in
    let (o3, wrote_objects) = write (encode_objects frame.objects) o2 in
    if not wrote_header
    then (o1, frame', false)
    else if not wrote_uuid
    then (o2, frame', false)
    else if length frame.objects == 0
    then (o2, frame', true)
    else (o3, frame', wrote_objects)

-- A buffered `IFile`; `buffer_pos` is -1 in the source while the file is closed.
pub record IFile : Type 0 where
  pub buffer : List ℕ
  pub buffer_pos : Option ℕ
  pub file_size : ℕ
  pub begin_time : ℕ
  pub start_time : ℕ
  pub current_time : ℕ

unfoldable pub is_open : IFile → Bool
is_open f = elim f.buffer_pos [ none ↦ false | some pos ↦ true ]

unfoldable pub is_eof : IFile → Bool
is_eof f = elim f.buffer_pos [ none ↦ true | some pos ↦ leb f.file_size pos ]

unfoldable pub tell : IFile → ℕ
tell f = elim f.buffer_pos [ none ↦ 0 | some pos ↦ pos ]

unfoldable pub seek : ℕ → IFile → IFile
seek pos f = if is_open f then record f { buffer_pos = some pos } else f

-- `timeStamp`, a `uint64_t`
unfoldable pub time_stamp : IFile → ℕ
time_stamp f = (f.begin_time + f.current_time) % 2 ^ 64

unfoldable pub close : IFile → IFile
close f = record f { buffer = []; buffer_pos = none; file_size = 0 }

-- `read`: the bytes that were copied. The source returns their number, or -1 if there are none.
unfoldable pub read : ℕ → IFile → IFile × List ℕ
read n f = elim f.buffer_pos [
  | none ↦ (f, [])
  | some pos ↦
      let size = if ltb f.file_size (pos + n) then f.file_size - pos else n in
      (record f { buffer_pos = some (pos + size) }, take size (drop pos f.buffer))
]

-- Memory that is overwritten by fewer bytes than it has.
unfoldable pub overwrite : List ℕ → List ℕ → List ℕ
overwrite bytes old = bytes ++ drop (length bytes) old

-- `get( Header & )`; the header given is what the caller's variable holds.
unfoldable pub get_header : Header → IFile → IFile × Header × Bool
get_header h f =
    let (f', bytes) = read 16 f in
    let h' = decode_header (overwrite bytes (encode_header h)) in
    (f', h', length bytes == 16 && h'.zero_ == 0)

-- `get( UUID & )` and `get( Binary & )`
unfoldable pub get_uuid : List ℕ → IFile → IFile × List ℕ × Bool
get_uuid uuid f = let (f', bytes) = read 16 f in (f', overwrite bytes uuid, length bytes == 16)

unfoldable pub get_binary : IFile → IFile × Binary × Bool
get_binary f = let (f', bytes) = read 12 f in (f', decode_binary bytes, length bytes == 12)

-- The loop over the objects of a frame.
unfoldable pub get_objects : ℕ → List Binary → IFile → IFile × List Binary × Bool
get_objects zero objects f = (f, objects, true)
get_objects (suc rounds) objects f =
    let (f', b, done) = get_binary f in
    let rest = get_objects rounds (objects ++ b ∷ []) f' in
    if done then rest else (f', objects, false)

-- `get( frame, true )`: the header stands in the frame already.
unfoldable pub get_body : BinaryFrame → IFile → IFile × BinaryFrame × Bool
get_body frame f =
    let (f1, uuid, done) = get_uuid frame.uuid f in
    let (f2, objects, all) = get_objects frame.header_.size frame.objects f1 in
    if done
    then (f2, record frame { uuid = uuid; objects = objects }, all)
    else (f1, record frame { uuid = uuid }, false)

-- `get( frame )`
unfoldable pub get_frame : BinaryFrame → IFile → IFile × BinaryFrame × Bool
get_frame frame f =
    let (f1, h, done) = get_header frame.header_ f in
    let frame' = record frame { header_ = h } in
    if done && is_type h frame_header then get_body frame' f1 else (f1, frame', false)

-- The loop of `openBuffer` that looks for the first time in the file; `none` if the fuel is used up.
unfoldable pub first_time : ℕ → IFile → Option IFile
first_time zero f = none
first_time (suc fuel) f =
    let (f', h, done) = get_header (header 0 frame_header) f in
    let rest = first_time fuel (record f' { begin_time = h.timestamp }) in
    let more = if done then rest else some f' in if f.begin_time == 0 then more else some f

-- `openBuffer`, from a buffer of bytes; `now` is what `getmsec` gives.
unfoldable pub open_buffer : ℕ → ℕ → List ℕ → IFile → Option (IFile × Bool)
open_buffer now reftimestamp bytes f =
    let closed = close f in
    let opened = record closed {
      buffer = bytes;
      buffer_pos = some 0;
      file_size = length bytes;
      begin_time = 0;
      start_time = if reftimestamp == 0 then now else reftimestamp;
    } in
    if length bytes == 0
    then some (closed, false)
    else elim (first_time (length bytes + 1) opened) [
      | none ↦ none
      | some f' ↦ some (seek 0 f', true)
    ]

-- One round of `sync`: a header at this place, the end of the file, or another round further on.
pub data Round : Type 0 where
  found : IFile → ℕ → Round
  ended : IFile → Round
  further : IFile → Round

unfoldable pub sync_round : IFile → Round
sync_round f =
    let pos = tell f in
    let (f', bytes) = read 16 f in
    let h = decode_header bytes in
    let on = seek (pos + 4) f' in
    if not (length bytes == 16)
    then ended f'
    else if h.zero_ == 0 && (is_type h frame_header || is_type h start_header)
    then found (seek pos f') h.timestamp
    else if is_eof on
    then ended on
    else further on

-- The loop of `sync`, with the time of the header that was found.
unfoldable pub sync_loop : ℕ → IFile → Option (IFile × Option ℕ)
sync_loop zero f = none
sync_loop (suc fuel) f = elim (sync_round f) [
  | found f' t ↦ some (f', some t)
  | ended f' ↦ some (f', none)
  | further f' ↦ sync_loop fuel f'
]

-- `sync()`: the file at the next header and its time, or 0 with the time unchanged.
unfoldable pub sync : IFile → Option (IFile × ℕ)
sync f = if not (is_open f) then some (f, 0) else elim (sync_loop (f.file_size + 2) f) [
  | none ↦ none
  | some (f', none) ↦ some (f', 0)
  | some (f', some t) ↦
      let time = (t + 2 ^ 64 - f'.begin_time) % 2 ^ 64 in
      some (record f' { current_time = time }, time)
]

-- `play( time )`, from the position that `time * file_size` gives.
unfoldable pub play : ℕ → IFile → Option (IFile × ℕ)
play pos f = sync (seek (pos - pos % 4) f)

-- ===== src/Player.antt =====
-- lidartool/include/packedPlayer.h: `PackedPlayer`, which replays the recordings of
-- lidartool/Trackable/PackedTrackable.h from a buffered file.
use lidar.Prelude.{
  ℕ, zero, suc, ◌+◌, ◌-◌, ◌*◌, ◌/◌, ◌%◌, ◌^◌, Bool, true, false, not, ◌&&◌, ◌||◌, List, [], ◌∷◌,
  ◌++◌, Option, none, some, ◌≡◌, arith, ltb, leb, ◌==◌, if◌then◌else◌, length, take, replicate, Key,
  emplace,
}
use lidar.Packed.Format.{
  Header, header, frame_header, unknown, version2, is_type, is_version, Binary, v1, BinaryFrame,
  binary_frame,
}
use lidar.Packed.Stream.{IFile, is_eof, tell, seek, time_stamp, play, get_header, get_body, sync}
pub mod Decode
pub mod Replay
pub mod Grab
pub mod Reads
pub mod Due
pub mod Search
mod Tests

-- The members of `ObsvObject` that `decodeFrame` sets; lengths are in hundredths.
pub record ObsvObject : Type 0 where
  pub id : ℕ
  pub timestamp : ℕ
  pub x : ℕ
  pub y : ℕ
  pub size : ℕ
  pub uuid : List ℕ
  pub flags : ℕ

-- The members of `ObsvObjects` that the player sets, and the map from an `int`.
pub record ObsvObjects : Type 0 where
  pub frame_id : ℕ
  pub timestamp : ℕ
  pub uuid : List ℕ
  pub objects : List (ℕ × ObsvObject)
  pub valid_count : ℕ

-- The place of a bit pattern of 32 bits in the order of `int`.
abbrev pub int_place : ℕ → ℕ
int_place n = (n + 2 ^ 31) % 2 ^ 32

pub id-same→eq : (a b : ℕ) → (a == b) ≡ true → a ≡ b
id-same→eq a b h = ground arith

pub id-same_refl : (a : ℕ) → (a == a) ≡ true
id-same_refl a = ground arith

-- Identifiers as keys of a map from `int`.
abbrev pub id_key : Key ℕ
id_key = record {
  same = λ a b. a == b;
  below = λ a b. ltb (int_place a) (int_place b);
  same→eq = id-same→eq;
  same-refl = id-same_refl;
}

-- `UUID( other, tid )`: the last four bytes are those of `tid`, the highest first.
unfoldable pub uuid_update : List ℕ → ℕ → List ℕ
uuid_update other tid =
    take 12 other ++ tid / 2 ^ 24 % 256 ∷ tid / 2 ^ 16 % 256 ∷ tid / 2 ^ 8 % 256 ∷ tid % 256 ∷ []

-- `flags & (Touched|Private|Latent|Immobile)`, the bits 0, 1, 4 and 5
unfoldable pub kept_flags : ℕ → ℕ
kept_flags flags = flags % 4 + flags / 16 % 4 * 16

-- An object of a frame, by the version of the frame's header.
unfoldable pub decode_object : BinaryFrame → Binary → ObsvObject
decode_object frame b =
    let o = if is_version frame.header_ version2 then b else v1 b in
    record {
      id = o.tid;
      timestamp = frame.header_.timestamp;
      x = o.x;
      y = o.y;
      size = o.size;
      uuid = uuid_update frame.uuid o.tid;
      flags = kept_flags o.flags;
    }

-- The loop of `decodeFrame`
unfoldable pub decode_objects :
    BinaryFrame → List Binary → List (ℕ × ObsvObject) → List (ℕ × ObsvObject)
decode_objects frame [] objects = objects
decode_objects frame (b ∷ bs) objects =
    let o = decode_object frame b in decode_objects frame bs (emplace id_key o.id o objects)

-- `decodeFrame`
unfoldable pub decode_frame : BinaryFrame → ObsvObjects → ObsvObjects
decode_frame frame objects =
    let decoded = decode_objects frame frame.objects [] in
    record objects {
      timestamp = frame.header_.timestamp;
      uuid = frame.uuid;
      objects = decoded;
      valid_count = length decoded;
    }

-- `PackedPlayer`
pub record PackedPlayer : Type 0 where
  pub file : Option IFile
  pub frame_id : ℕ
  pub last_frame : BinaryFrame
  pub current_frame : BinaryFrame

-- `start`
unfoldable pub start : PackedPlayer → PackedPlayer
start p = record p {
  last_frame = record p.last_frame { header_ = record p.last_frame.header_ { flags = 0 } };
  current_frame = record p.current_frame { header_ = record p.current_frame.header_ { flags = 0 } };
  frame_id = 0;
}

-- `is_eof`, `timeStamp` and `play`
unfoldable pub at_eof : PackedPlayer → Bool
at_eof p = elim p.file [ none ↦ true | some f ↦ is_eof f ]

unfoldable pub player_time : PackedPlayer → ℕ
player_time p = elim p.file [ none ↦ 0 | some f ↦ time_stamp f ]

unfoldable pub play_from : ℕ → PackedPlayer → Option (PackedPlayer × ℕ)
play_from pos p = elim p.file [
  | none ↦ some (p, 0)
  | some f ↦ elim (play pos f) [
    | none ↦ none
    | some (f', t) ↦ some (record p { file = some f' }, t)
  ]
]

-- `nextHeader`
unfoldable pub next_header : Header → PackedPlayer → PackedPlayer × Header × ℕ
next_header h p = elim p.file [
  | none ↦ (p, h, unknown)
  | some f ↦
      let (f', h', done) = get_header h f in
      let f2 = if h'.zero_ == 0 then f' else seek (tell f + 4) f' in
      if done
      then (record p { file = some f' }, h', h'.flags)
      else (record p { file = some f2 }, h', unknown)
]

-- `nextFrame( frame, header )`
unfoldable pub next_binary_frame :
    BinaryFrame → Header → PackedPlayer → PackedPlayer × BinaryFrame × Bool
next_binary_frame frame h p = elim p.file [
  | none ↦ (p, record frame { objects = [] }, false)
  | some f ↦
      let (f', frame', done) = get_body (record frame { header_ = h; objects = [] }) f in
      if done
      then (
        record p { file = some f'; last_frame = p.current_frame; current_frame = frame' },
        frame',
        true,
      )
      else (record p { file = some f' }, frame', false)
]

-- A `BinaryFrame` as its constructor makes it, with a UUID of zeros.
unfoldable pub new_frame : BinaryFrame
new_frame = binary_frame 0 0 (replicate 16 0)

-- `nextFrame( objects, header )`
unfoldable pub next_objects :
    ObsvObjects → Header → PackedPlayer → PackedPlayer × ObsvObjects × Bool
next_objects objects h p =
    let cleared = record objects { objects = []; valid_count = 0 } in
    let (p', frame, done) = next_binary_frame new_frame h p in
    let count = p'.frame_id + 1 in
    if done
    then (
      record p' { frame_id = count },
      decode_frame frame (record cleared { frame_id = count; timestamp = frame.header_.timestamp }),
      true,
    )
    else (p', cleared, false)

-- The loop of `nextFrame( objects )`; `none` if the fuel is used up.
unfoldable pub find_header : ℕ → Header → PackedPlayer → Option (PackedPlayer × Header)
find_header zero h p = none
find_header (suc fuel) h p =
    let (p', h', type) = next_header h p in
    let rest = find_header fuel h' p' in
    if not (at_eof p) && not (is_type h frame_header) then rest else some (p, h)

-- `nextFrame( objects )`, with fuel for the bytes of the file.
unfoldable pub next_frame : ObsvObjects → PackedPlayer → Option (PackedPlayer × ObsvObjects × Bool)
next_frame objects p =
    let fuel : ℕ = elim p.file [ none ↦ 0 | some f ↦ f.file_size ] in
    let (p1, h1, type) = next_header (header 0 frame_header) p in
    elim (find_header (fuel + 1) h1 p1) [
      | none ↦ none
      | some (p2, h2) ↦
          some
            (if is_type h2 frame_header then next_objects objects h2 p2 else (p2, objects, false))
    ]

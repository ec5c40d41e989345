-- ===== src/Player/Grab.antt =====
-- `grabFrame` of `PackedPlayer`, which gives the frames of a recording at their times.
use lidar.Prelude.{
  ℕ, zero, suc, ◌+◌, ◌-◌, ◌%◌, ◌^◌, Bool, true, not, ◌&&◌, [], Option, none, some, ltb, leb, ◌==◌,
  if◌then◌else◌,
}
use lidar.Packed.Format.{Header, header, frame_header, unknown, is_type, BinaryFrame}
use lidar.Packed.Stream.{IFile, is_eof, tell, seek, get_header, sync}
use lidar.Player.{PackedPlayer, next_binary_frame}

-- A 64-bit difference.
unfoldable pub minus64 : ℕ → ℕ → ℕ
minus64 a b = (a + 2 ^ 64 - b) % 2 ^ 64

-- What a round of `grabFrame` does with a frame: it is due, it comes later, or it is passed over.
pub data Due : Type 0 where
  due : Due
  later : Due
  passed : Due

unfoldable pub due_of : ℕ → ℕ → BinaryFrame → Due
due_of begin_time current_time frame =
    let time = frame.header_.timestamp in
    let record_time = minus64 time begin_time in
    if leb begin_time time && leb current_time record_time
    then if ltb (record_time - current_time) 750 then due else later
    else passed

-- The header at the place of the file, or the next one after it; `none` if the fuel is used up.
unfoldable pub grab_header : Header → IFile → Option (IFile × Header × ℕ × Bool)
grab_header h f =
    let (f1, h1, done) = get_header h f in
    if done then some (f1, h1, tell f, true) else elim (sync f1) [
      | none ↦ none
      | some (f2, t) ↦ let (f3, h3, again) = get_header h1 f2 in some (f3, h3, tell f2, again)
    ]

-- The loop of `grabFrame( frame, timestamp )`; `now` is what `getmsec` gives after the wait for the
-- frame. The result has the header's flags, 0 for `Unknown`.
unfoldable pub grab_loop :
    ℕ → ℕ → Header → BinaryFrame → IFile → PackedPlayer → Option (PackedPlayer × BinaryFrame × ℕ)
grab_loop zero now h frame f p = none
grab_loop (suc fuel) now h frame f p = elim (grab_header h f) [
  | none ↦ none
  | some (f1, h1, pos, found) ↦
      let p1 = record p { file = some f1 } in
      let (p2, frame2, done) = next_binary_frame frame h1 p1 in
      let f2 : IFile = elim p2.file [ none ↦ f1 | some g ↦ g ] in
      let rest = grab_loop fuel now h1 frame2 f2 p2 in
      if not found
      then some (p1, frame, unknown)
      else if not (is_type h1 frame_header)
      then some (p1, frame, h1.flags)
      else if not done
      then some (p2, frame2, unknown)
      else elim (due_of f2.begin_time f2.current_time frame2) [
        | due ↦ some (
          record p2 { file = some (record f2 { current_time = minus64 now f2.start_time }) },
          frame2,
          frame_header,
        )
        | later ↦ some (record p2 { file = some (seek pos f2) }, frame2, unknown)
        | passed ↦ rest
      ]
]

-- `grabFrame( frame, timestamp )`; `clock` is what `getmsec` gives at first.
unfoldable pub grab_frame :
    ℕ → ℕ → ℕ → BinaryFrame → ℕ → PackedPlayer → Option (PackedPlayer × BinaryFrame × ℕ)
grab_frame fuel clock now frame timestamp p = elim p.file [
  | none ↦ some (p, frame, unknown)
  | some f ↦
      let time = if timestamp == 0 then clock else timestamp in
      let timed = record f { current_time = minus64 time f.start_time } in
      if is_eof f
      then some (p, frame, unknown)
      else grab_loop fuel now (header 0 frame_header) (record frame { objects = [] }) timed
          (record p { file = some timed })
]

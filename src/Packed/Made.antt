-- ===== src/Packed/Made.antt =====
-- Frames as the program makes them: `BinaryFrame( tstamp, uuid )`, and `add` for each object.
use lidar.Prelude.{ℕ, ◌+◌, ◌%◌, ◌^◌, ◌<◌, List, [], ◌∷◌, ◌++◌, ◌≡◌, arith, length, length-append}
use lidar.Packed.Format.{
  header, frame_header, is_type, nonzero_low, or_version2, Binary, binary, not_zero, BinaryFrame,
  binary_frame, add,
}
use lidar.Packed.Fields.{IsBinary, AllBinary}
use lidar.Packed.Frames.{IsFrame}

-- Whatever the clock says, a new frame has the time that it is given, made to differ from 0 in its low
-- half: a time of 0 is 1 before the constructor could take the clock's time for it.
pub binary_frame_time :
    (now tstamp : ℕ) (uuid : List ℕ)
    → (binary_frame now tstamp uuid).header_ ≡ header tstamp frame_header
unfolding binary_frame header nonzero_low
binary_frame_time now tstamp uuid = ground arith

-- Identifiers that differ by 65536 give the same object in a frame.
pub add_same_id :
    (fr : BinaryFrame) (tid x y size flags : ℕ)
    → add fr (tid + 2 ^ 16) x y size flags ≡ add fr tid x y size flags
unfolding add
add_same_id fr tid x y size flags = ground arith

time_bounded : (t : ℕ) → t < 2 ^ 64 → nonzero_low t < 256 ^ 8
unfolding nonzero_low
time_bounded t h = ground arith

pub binary_frame-IsFrame :
    (now tstamp : ℕ) (uuid : List ℕ)
    → tstamp < 2 ^ 64
    → length uuid ≡ 16
    → IsFrame (binary_frame now tstamp uuid)
unfolding binary_frame header nonzero_low or_version2 is_type
binary_frame-IsFrame now tstamp uuid h e = record {
  header_ok = record {
    zero_bound = ground arith;
    flags_bound = ground arith;
    size_bound = ground arith;
    time_bound = ground (arith, h);
  };
  zero_first = ground arith;
  typed = ground arith;
  uuid_size = e;
  count = omega arith;
  objects_ok = tt;
}

AllBinary-append :
    (bs : List Binary) (b : Binary) → AllBinary bs → IsBinary b → AllBinary (bs ++ b ∷ [])
AllBinary-append [] b vs v = (v, tt)
AllBinary-append (c ∷ bs) b vs v = (vs.0, AllBinary-append bs b vs.1 v)

binary-IsBinary : (tid x y size flags : ℕ) → IsBinary (binary tid x y size flags)
unfolding binary not_zero
binary-IsBinary tid x y size flags = record {
  tid_bound = omega arith;
  x_bound = ground arith;
  y_bound = ground arith;
  size_bound = ground arith;
  flags_bound = omega arith;
}

pub add-IsFrame :
    (fr : BinaryFrame) (tid x y size flags : ℕ)
    → IsFrame fr
    → length fr.objects + 1 < 2 ^ 16
    → IsFrame (add fr tid x y size flags)
unfolding add
add-IsFrame fr tid x y size flags v h = record {
  header_ok = v.header_ok;
  zero_first = v.zero_first;
  typed = v.typed;
  uuid_size = v.uuid_size;
  count = omega (arith, length-append fr.objects (binary (tid % 2 ^ 16) x y size flags ∷ []));
  objects_ok =
      AllBinary-append fr.objects (binary (tid % 2 ^ 16) x y size flags) v.objects_ok
        (binary-IsBinary (tid % 2 ^ 16) x y size flags);
}

-- What `add` is called with.
pub record Added : Type 0 where
  pub tid : ℕ
  pub x : ℕ
  pub y : ℕ
  pub size : ℕ
  pub flags : ℕ

abbrev pub add_objects : BinaryFrame → List Added → BinaryFrame
add_objects fr [] = fr
add_objects fr (o ∷ os) = add_objects (add fr o.tid o.x o.y o.size o.flags) os

length-add :
    (fr : BinaryFrame) (tid x y size flags : ℕ)
    → length (add fr tid x y size flags).objects ≡ length fr.objects + 1
unfolding add
length-add fr tid x y size flags =
    length-append fr.objects (binary (tid % 2 ^ 16) x y size flags ∷ [])

adds_ok :
    (os : List Added) (fr : BinaryFrame)
    → IsFrame fr
    → length fr.objects + length os < 2 ^ 16
    → IsFrame (add_objects fr os)
adds_ok [] fr v h = v
adds_ok (o ∷ os) fr v h =
    adds_ok os (add fr o.tid o.x o.y o.size o.flags)
      (add-IsFrame fr o.tid o.x o.y o.size o.flags v (omega arith))
      (omega (arith, length-add fr o.tid o.x o.y o.size o.flags))

-- A frame that is made with a time of 64 bits and a UUID of 16 bytes, and to which at most 65535
-- objects are added, can be put and read back.
pub add_objects-IsFrame :
    (now tstamp : ℕ) (uuid : List ℕ) (os : List Added)
    → tstamp < 2 ^ 64
    → length uuid ≡ 16
    → length os < 2 ^ 16
    → IsFrame (add_objects (binary_frame now tstamp uuid) os)
unfolding binary_frame
add_objects-IsFrame now tstamp uuid os h e l =
    adds_ok os (binary_frame now tstamp uuid) (binary_frame-IsFrame now tstamp uuid h e)
      (omega arith)

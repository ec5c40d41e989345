-- ===== src/Packed/Format.antt =====
-- `Header`, `Binary` and `BinaryFrame`, and their bytes: the structs are written by their memory on a
-- little-endian machine, where none of them has padding.
use lidar.Prelude.{
  ℕ, ◌+◌, ◌*◌, ◌/◌, ◌%◌, ◌^◌, Bool, List, [], ◌∷◌, ◌++◌, ltb, ◌==◌, if◌then◌else◌, take, drop,
  le_bytes, from_le,
}

-- `HeaderType` and `HeaderVersion`
abbrev pub unknown : ℕ
unknown = 0

abbrev pub frame_header : ℕ
frame_header = 1

abbrev pub start_header : ℕ
start_header = 2

abbrev pub stop_header : ℕ
stop_header = 3

abbrev pub version1 : ℕ
version1 = 0

abbrev pub version2 : ℕ
version2 = 0x100

pub record Header : Type 0 where
  pub zero_ : ℕ
  pub flags : ℕ
  pub size : ℕ
  pub timestamp : ℕ

-- `(tstamp&0xffffffff) == 0 ? (tstamp|1) : tstamp`
unfoldable pub nonzero_low : ℕ → ℕ
nonzero_low tstamp = if tstamp % 2 ^ 32 == 0 then tstamp + 1 else tstamp

-- `flags | Version2`
unfoldable pub or_version2 : ℕ → ℕ
or_version2 flags = if flags / 256 % 2 == 1 then flags else flags + version2

-- `Header( tstamp, flags )`
unfoldable pub header : ℕ → ℕ → Header
header tstamp flags = record {
  zero_ = 0;
  flags = or_version2 flags;
  size = 0;
  timestamp = nonzero_low tstamp;
}

-- `isType`, `version`, `isVersion` and `timeStampValid`
unfoldable pub is_type : Header → ℕ → Bool
is_type h type = h.flags % 256 == type

unfoldable pub version : Header → ℕ
version h = h.flags / 256 % 256 * 256

unfoldable pub is_version : Header → ℕ → Bool
is_version h v = version h == v

unfoldable pub time_stamp_valid : Header → Bool
time_stamp_valid h = ltb 1 h.timestamp

unfoldable pub encode_header : Header → List ℕ
encode_header h =
    le_bytes 4 h.zero_ ++ (le_bytes 2 h.flags ++ (le_bytes 2 h.size ++ le_bytes 8 h.timestamp))

unfoldable pub decode_header : List ℕ → Header
decode_header bs = record {
  zero_ = from_le (take 4 bs);
  flags = from_le (take 2 (drop 4 bs));
  size = from_le (take 2 (drop 6 bs));
  timestamp = from_le (take 8 (drop 8 bs));
}

-- `Binary`, by the members of its struct `v2`; `x` and `y` are the bit patterns of an `int16_t`.
pub record Binary : Type 0 where
  pub tid : ℕ
  pub x : ℕ
  pub y : ℕ
  pub size : ℕ
  pub flags : ℕ

-- The struct `v1` of the union, over the same twelve bytes.
unfoldable pub v1 : Binary → Binary
v1 b = record { tid = b.tid % 2 ^ 16; x = b.tid / 2 ^ 16; y = b.x; size = b.y; flags = b.size }

-- `if ( this->v2.x == 0 ) this->v2.x = 1`
unfoldable pub not_zero : ℕ → ℕ
not_zero n = if n == 0 then 1 else n

-- `Binary( tid, x, y, size, flags )`, on the hundredths that the casts of the floats give.
unfoldable pub binary : ℕ → ℕ → ℕ → ℕ → ℕ → Binary
binary tid x y size flags = record {
  tid = tid % 2 ^ 32;
  x = not_zero (x % 2 ^ 16);
  y = not_zero (y % 2 ^ 16);
  size = not_zero (size % 2 ^ 16);
  flags = flags % 2 ^ 16;
}

unfoldable pub encode_binary : Binary → List ℕ
encode_binary b =
    le_bytes 4 b.tid
    ++ (le_bytes 2 b.x ++ (le_bytes 2 b.y ++ (le_bytes 2 b.size ++ le_bytes 2 b.flags)))

unfoldable pub decode_binary : List ℕ → Binary
decode_binary bs = record {
  tid = from_le (take 4 bs);
  x = from_le (take 2 (drop 4 bs));
  y = from_le (take 2 (drop 6 bs));
  size = from_le (take 2 (drop 8 bs));
  flags = from_le (take 2 (drop 10 bs));
}

-- A frame is a vector of `Binary` with a header and the 16 bytes of a UUID.
pub record BinaryFrame : Type 0 where
  pub header_ : Header
  pub uuid : List ℕ
  pub objects : List Binary

-- `BinaryFrame( tstamp, uuid )`; `now` is the time that `getmsec` gives.
unfoldable pub binary_frame : ℕ → ℕ → List ℕ → BinaryFrame
binary_frame now tstamp uuid =
    let h = header tstamp frame_header in
    record {
      header_ = if h.timestamp == 0 then record h { timestamp = nonzero_low now } else h;
      uuid = uuid;
      objects = [];
    }

-- `add`, whose first parameter is a `uint16_t`
unfoldable pub add : BinaryFrame → ℕ → ℕ → ℕ → ℕ → ℕ → BinaryFrame
add f tid x y size flags = record f {
  objects = f.objects ++ binary (tid % 2 ^ 16) x y size flags ∷ [];
}

-- ===== src/Packed/Fields.antt =====
-- The bytes of a header and of an object give its fields back.
use lidar.Prelude.{
  ℕ, ◌^◌, ◌<◌, List, [], ◌∷◌, ◌++◌, ◌≡◌, refl, length, le_bytes, from_le, from_le-le_bytes,
}
use lidar.Packed.Format.{Header, encode_header, decode_header, Binary, encode_binary, decode_binary}

-- The fields lie within the widths of the members.
pub record IsHeader (h : Header) : Type 0 where
  pub zero_bound : h.zero_ < 256 ^ 4
  pub flags_bound : h.flags < 256 ^ 2
  pub size_bound : h.size < 256 ^ 2
  pub time_bound : h.timestamp < 256 ^ 8

pub record IsBinary (b : Binary) : Type 0 where
  pub tid_bound : b.tid < 256 ^ 4
  pub x_bound : b.x < 256 ^ 2
  pub y_bound : b.y < 256 ^ 2
  pub size_bound : b.size < 256 ^ 2
  pub flags_bound : b.flags < 256 ^ 2

abbrev pub AllBinary : List Binary → Type 0
AllBinary [] = Unit {0}
AllBinary (b ∷ bs) = IsBinary b × AllBinary bs

pub length-encode_header : (h : Header) → length (encode_header h) ≡ 16
unfolding encode_header le_bytes
length-encode_header h = refl

pub length-encode_binary : (b : Binary) → length (encode_binary b) ≡ 12
unfolding encode_binary le_bytes
length-encode_binary b = refl

word : (n x : ℕ) → x < 256 ^ n → from_le (le_bytes n x) ≡ x
word n x h = from_le-le_bytes n x h

pub decode-encode_header :
    (h : Header) (rest : List ℕ) → IsHeader h → decode_header (encode_header h ++ rest) ≡ h
unfolding decode_header encode_header le_bytes
decode-encode_header h rest v = λ i. record {
  zero_ = word 4 h.zero_ v.zero_bound i;
  flags = word 2 h.flags v.flags_bound i;
  size = word 2 h.size v.size_bound i;
  timestamp = word 8 h.timestamp v.time_bound i;
}

pub decode-encode_binary :
    (b : Binary) (rest : List ℕ) → IsBinary b → decode_binary (encode_binary b ++ rest) ≡ b
unfolding decode_binary encode_binary le_bytes
decode-encode_binary b rest v = λ i. record {
  tid = word 4 b.tid v.tid_bound i;
  x = word 2 b.x v.x_bound i;
  y = word 2 b.y v.y_bound i;
  size = word 2 b.size v.size_bound i;
  flags = word 2 b.flags v.flags_bound i;
}

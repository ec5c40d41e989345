-- ===== src/Player/Reads.antt =====
-- What one round of `grabFrame` reads at a frame, and what of the file it keeps.
use mathlib.Core.List.{append_assoc}
use lidar.Prelude.{
  ℕ, zero, suc, true, List, [], ◌∷◌, ◌++◌, some, ◌≡◌, refl, subst, ◌∙◌, arith, inl, inr, Bool-cases,
  length,
}
use lidar.Packed.Format.{Binary, Header, encode_header, BinaryFrame}
use lidar.Packed.Stream.{
  IFile, encode_objects, tell, read, get_header, get_uuid, get_binary, get_objects, get_body,
}
use lidar.Packed.RoundTrip.{At, get_header-At}
use lidar.Packed.Frames.{IsFrame, counted, encode_frame}
use lidar.Player.{PackedPlayer, next_binary_frame}
use lidar.Player.Replay.{counted-IsHeader, next_binary_frame-At}
use lidar.Player.Grab.{grab_header}

-- Reading leaves all of a file as it is but the position.
abbrev pub Keeps : IFile → IFile → Type 0
Keeps f g =
    (g.begin_time ≡ f.begin_time)
    × (g.current_time ≡ f.current_time)
    × (g.buffer ≡ f.buffer)
    × (g.file_size ≡ f.file_size)

Keeps-trans : (f g h : IFile) → Keeps f g → Keeps g h → Keeps f h
Keeps-trans f g h (a, b, c, d) (a', b', c', d') = (a' ∙ a, b' ∙ b, c' ∙ c, d' ∙ d)

read-Keeps : (n : ℕ) (f : IFile) → Keeps f (read n f).0
unfolding read
read-Keeps n f = ground arith

header-Keeps : (h : Header) (f : IFile) → Keeps f (get_header h f).0
unfolding get_header
header-Keeps h f = read-Keeps 16 f

uuid-Keeps : (uuid : List ℕ) (f : IFile) → Keeps f (get_uuid uuid f).0
unfolding get_uuid
uuid-Keeps uuid f = read-Keeps 16 f

binary-Keeps : (f : IFile) → Keeps f (get_binary f).0
unfolding get_binary
binary-Keeps f = read-Keeps 12 f

pub open_at_place : (f : IFile) (bytes : List ℕ) (v : At f bytes) → tell f ≡ v.pos
unfolding tell
open_at_place f bytes v = ground (arith, v.open_at)

objects-Keeps : (n : ℕ) (had : List Binary) (f : IFile) → Keeps f (get_objects n had f).0
unfolding get_objects
objects-Keeps zero had f = (refl, refl, refl, refl)
objects-Keeps (suc n) had f =
    let (f', b, done) = get_binary f in
    let first = binary-Keeps f in
    let all =
      Keeps-trans f f' (get_objects n (had ++ b ∷ []) f').0 first
        (objects-Keeps n (had ++ b ∷ []) f') in
    elim (Bool-cases done) [ inl y ↦ rw y all | inr n' ↦ rw n' first ]

body-Keeps : (frame : BinaryFrame) (f : IFile) → Keeps f (get_body frame f).0
unfolding get_body
body-Keeps frame f =
    let (f1, uuid, done) = get_uuid frame.uuid f in
    let first = uuid-Keeps frame.uuid f in
    let n = frame.header_.size in
    let all =
      Keeps-trans f f1 (get_objects n frame.objects f1).0 first
        (objects-Keeps n frame.objects f1) in
    elim (Bool-cases done) [ inl y ↦ rw y all | inr n' ↦ rw n' first ]

-- What a round of `grabFrame` reads at a frame.
pub record Reads (fr frame : BinaryFrame) (h : Header) (f : IFile) (p : PackedPlayer)
    (rest : List ℕ) : Type 0 where
  pub f1 : IFile
  pub f2 : IFile
  pub head : grab_header h f ≡ some (f1, (counted fr).header_, tell f, true)
  pub body : next_binary_frame frame (counted fr).header_ (record p { file = some f1 }) ≡ (
    record p { file = some f2; last_frame = p.current_frame; current_frame = counted fr },
    counted fr,
    true,
  )
  pub kept : Keeps f f2
  pub after : At f2 rest

pub Reads-frame :
    (fr frame : BinaryFrame) (h : Header) (f : IFile) (p : PackedPlayer) (rest : List ℕ)
    → IsFrame fr
    → length frame.uuid ≡ 16
    → At f (encode_frame fr ++ rest)
    → Reads fr frame h f p rest
unfolding grab_header
Reads-frame fr frame h f p rest v u at_ =
    let head = encode_header (counted fr).header_ in
    let body = fr.uuid ++ encode_objects fr.objects in
    let (f1, e1, at1) =
      get_header-At h (counted fr).header_ f (body ++ rest) (counted-IsHeader fr v) v.zero_first
        (subst (At f) (append_assoc head body rest) at_) in
    let (f2, e2, b, at2) =
      next_binary_frame-At fr frame (record p { file = some f1 }) f1 rest v u refl at1 in
    let k1 : Keeps f f1 = rw e1 at (header-Keeps h f) in
    let k2 : Keeps f1 f2 = rw b at (
      body-Keeps (record { header_ = (counted fr).header_; uuid = frame.uuid; objects = [] }) f1) in
    record {
      f1 = f1;
      f2 = f2;
      head = ground (arith, e1);
      body = e2;
      kept = Keeps-trans f f1 f2 k1 k2;
      after = at2;
    }

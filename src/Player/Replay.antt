-- ===== src/Player/Replay.antt =====
-- `nextFrame`: the frames of a recording come out one after the other.
use mathlib.Core.List.{append_assoc}
use lidar.Prelude.{
  ℕ, zero, suc, ◌+◌, ◌%◌, ◌^◌, true, List, [], ◌∷◌, ◌++◌, Option, none, some, ◌≡◌, refl, ap, subst,
  ◌∙◌, arith, length,
}
use lidar.Packed.Format.{header, frame_header, is_type, encode_header, BinaryFrame, binary_frame}
use lidar.Packed.Fields.{IsHeader}
use lidar.Packed.Stream.{IFile, encode_objects, get_body}
use lidar.Packed.RoundTrip.{At, get_header-At, get_uuid-At, get_objects-At}
use lidar.Packed.Frames.{IsFrame, counted, encode_frame, AllFrame, encode_all}
use lidar.Player.{
  ObsvObjects, PackedPlayer, decode_frame, next_header, next_binary_frame, new_frame, next_objects,
  find_header, next_frame,
}

pub counted-IsHeader : (fr : BinaryFrame) → IsFrame fr → IsHeader (counted fr).header_
counted-IsHeader fr v = record {
  zero_bound = v.header_ok.zero_bound;
  flags_bound = v.header_ok.flags_bound;
  size_bound = omega arith;
  time_bound = v.header_ok.time_bound;
}

pub counted_typed :
    (fr : BinaryFrame) → IsFrame fr → is_type (counted fr).header_ frame_header ≡ true
unfolding is_type
counted_typed fr v = v.typed

-- The rest of a frame, behind its header.
pub get_body-At :
    (fr : BinaryFrame) (uuid : List ℕ) (f : IFile) (rest : List ℕ)
    → IsFrame fr
    → length uuid ≡ 16
    → At f ((fr.uuid ++ encode_objects fr.objects) ++ rest)
    → (f' : IFile) × (get_body
          (record { header_ = (counted fr).header_; uuid = uuid; objects = [] })
          f
        ≡ (f', counted fr, true))
      × At f' rest
unfolding get_body
get_body-At fr uuid f rest v u at_ =
    let (f2, e2, at2) =
      get_uuid-At uuid fr.uuid f (encode_objects fr.objects ++ rest) u v.uuid_size
        (subst (At f) (append_assoc fr.uuid (encode_objects fr.objects) rest) at_) in
    let (f3, e3, at3) = get_objects-At fr.objects [] f2 rest v.objects_ok at2 in
    let all : length fr.objects % 2 ^ 16 ≡ length fr.objects = omega (arith, v.count) in
    (f3, ground (arith, e2, all, e3), at3)

length-new_frame : length new_frame.uuid ≡ 16
unfolding new_frame binary_frame
length-new_frame = refl

pub next_binary_frame-At :
    (fr old : BinaryFrame) (p : PackedPlayer) (f : IFile) (rest : List ℕ)
    → IsFrame fr
    → length old.uuid ≡ 16
    → p.file ≡ some f
    → At f ((fr.uuid ++ encode_objects fr.objects) ++ rest)
    → (f' : IFile) × (next_binary_frame old (counted fr).header_ p ≡ (
      record p { file = some f'; last_frame = p.current_frame; current_frame = counted fr },
      counted fr,
      true,
    ))
      × (get_body (record { header_ = (counted fr).header_; uuid = old.uuid; objects = [] }) f
          ≡ (f', counted fr, true))
      × At f' rest
unfolding next_binary_frame
next_binary_frame-At fr old p f rest v u e at_ =
    let (f', e', at') = get_body-At fr old.uuid f rest v u at_ in
    (f', ground (arith, e, e'), e', at')

-- The objects that come with a frame, of the number `id`.
abbrev pub shown : ObsvObjects → ℕ → BinaryFrame → ObsvObjects
shown objects id fr =
    decode_frame (counted fr)
      (record objects { objects = []; frame_id = id; timestamp = fr.header_.timestamp })

pub next_frame-At :
    (fr : BinaryFrame) (objects : ObsvObjects) (p : PackedPlayer) (f : IFile) (rest : List ℕ)
    → IsFrame fr
    → p.file ≡ some f
    → At f (encode_frame fr ++ rest)
    → (p' : PackedPlayer) × (f' : IFile) × (next_frame objects p
        ≡ some (p', shown objects (p.frame_id + 1) fr, true))
      × (p'.file ≡ some f')
      × (p'.frame_id ≡ p.frame_id + 1)
      × (p'.current_frame ≡ counted fr)
      × At f' rest
unfolding next_frame next_header find_header next_objects decode_frame
next_frame-At fr objects p f rest v e at_ =
    let head = encode_header (counted fr).header_ in
    let body = fr.uuid ++ encode_objects fr.objects in
    let (f1, e1, at1) =
      get_header-At (header 0 frame_header) (counted fr).header_ f (body ++ rest)
        (counted-IsHeader fr v) v.zero_first (subst (At f) (append_assoc head body rest) at_) in
    let p1 = record p { file = some f1 } in
    let (f2, e2, b, at2) =
      next_binary_frame-At fr new_frame p1 f1 rest v length-new_frame refl at1 in
    (
      record p {
        file = some f2;
        last_frame = p.current_frame;
        current_frame = counted fr;
        frame_id = p.frame_id + 1;
      },
      f2,
      ground (arith, e, e1, e2, counted_typed fr v),
      refl,
      refl,
      refl,
      at2,
    )

-- `nextFrame` for a number of times.
unfoldable pub next_frames :
    ℕ → ObsvObjects → PackedPlayer → Option (PackedPlayer × List ObsvObjects)
next_frames zero objects p = some (p, [])
next_frames (suc n) objects p = elim (next_frame objects p) [
  | none ↦ none
  | some (p1, shown1, done) ↦ elim (next_frames n objects p1) [
    | none ↦ none
    | some (p2, rest) ↦ some (p2, shown1 ∷ rest)
  ]
]

abbrev pub shown_from : ObsvObjects → ℕ → List BinaryFrame → List ObsvObjects
shown_from objects id [] = []
shown_from objects id (fr ∷ frs) = shown objects (id + 1) fr ∷ shown_from objects (id + 1) frs

frames_from :
    (frs : List BinaryFrame) (objects : ObsvObjects) (p : PackedPlayer) (f : IFile) (rest : List ℕ)
    (id : ℕ)
    → AllFrame frs
    → p.file ≡ some f
    → p.frame_id ≡ id
    → At f (encode_all frs ++ rest)
    → (p' : PackedPlayer) × (next_frames (length frs) objects p
        ≡ some (p', shown_from objects id frs))
      × (p'.frame_id ≡ id + length frs)
unfolding next_frames
frames_from [] objects p f rest id v e i at_ = (p, refl, omega (arith, i))
frames_from (fr ∷ frs) objects p f rest id (v, vs) e i at_ =
    let (p1, f1, e1, file1, id1, cur, at1) =
      next_frame-At fr objects p f (encode_all frs ++ rest) v e
        (subst (At f) (append_assoc (encode_frame fr) (encode_all frs) rest) at_) in
    let (p2, e2, id2) =
      frames_from frs objects p1 f1 rest (id + 1) vs file1 (id1 ∙ ap (λ n. n + 1) i) at1 in
    (p2, ground (arith, e1, e2, i), omega (arith, id2))

-- A player at the first of some recorded frames gives these frames' objects in order, with the numbers
-- that follow the last one, by as many calls of `nextFrame` as there are frames.
pub next_frames-encode_all :
    (frs : List BinaryFrame) (objects : ObsvObjects) (p : PackedPlayer) (f : IFile) (rest : List ℕ)
    → AllFrame frs
    → p.file ≡ some f
    → At f (encode_all frs ++ rest)
    → (p' : PackedPlayer) × (next_frames (length frs) objects p
        ≡ some (p', shown_from objects p.frame_id frs))
      × (p'.frame_id ≡ p.frame_id + length frs)
next_frames-encode_all frs objects p f rest v e at_ =
    frames_from frs objects p f rest p.frame_id v e refl at_

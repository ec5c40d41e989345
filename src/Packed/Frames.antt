-- ===== src/Packed/Frames.antt =====
-- Whole frames: what `put` appends to a file, `get` reads back, one frame after the other.
use mathlib.Core.List.{append_assoc, append-nil}
use lidar.Prelude.{
  ℕ, zero, suc, ◌-◌, ◌%◌, ◌^◌, ◌<◌, ◌≤◌, Bool, true, ◌&&◌, List, [], ◌∷◌, ◌++◌, map, some, ◌≡◌,
  refl, ap, sym, subst, ◌∙◌, arith, length, length-append, take_all, drop-append, length-drop,
  drop-append, length-drop,
}
use lidar.Packed.Format.{is_type, frame_header, encode_header, Binary, BinaryFrame}
use lidar.Packed.Fields.{IsHeader, AllBinary}
use lidar.Packed.RoundTrip.{At, get_header-At, get_uuid-At, get_objects-At}
use lidar.Packed.Stream.{
  OFile, write, encode_objects, put_frame, IFile, is_eof, get_body, get_frame,
}

-- A frame as the program makes it, with at most 65535 objects.
pub record IsFrame (fr : BinaryFrame) : Type 0 where
  pub header_ok : IsHeader fr.header_
  pub zero_first : fr.header_.zero_ ≡ 0
  pub typed : is_type fr.header_ frame_header ≡ true
  pub uuid_size : length fr.uuid ≡ 16
  pub count : length fr.objects < 2 ^ 16
  pub objects_ok : AllBinary fr.objects

-- The frame with its number of objects in the header, as `put` leaves it.
abbrev pub counted : BinaryFrame → BinaryFrame
counted fr = record fr { header_ = record fr.header_ { size = length fr.objects % 2 ^ 16 } }

abbrev pub encode_frame : BinaryFrame → List ℕ
encode_frame fr = encode_header (counted fr).header_ ++ (fr.uuid ++ encode_objects fr.objects)

counted-IsHeader : (fr : BinaryFrame) → IsFrame fr → IsHeader (counted fr).header_
counted-IsHeader fr v = record {
  zero_bound = v.header_ok.zero_bound;
  flags_bound = v.header_ok.flags_bound;
  size_bound = omega arith;
  time_bound = v.header_ok.time_bound;
}

typed_counted : (fr : BinaryFrame) → IsFrame fr → is_type (counted fr).header_ frame_header ≡ true
unfolding is_type
typed_counted fr v = v.typed

-- An empty frame, as the reader has it before `get`.
pub record IsBlank (fr : BinaryFrame) : Type 0 where
  pub no_objects : fr.objects ≡ []
  pub uuid_size : length fr.uuid ≡ 16

pub get_frame-At :
    (fr blank : BinaryFrame) (f : IFile) (rest : List ℕ)
    → IsFrame fr
    → IsBlank blank
    → At f (encode_frame fr ++ rest)
    → (f' : IFile) × (get_frame blank f ≡ (f', counted fr, true)) × At f' rest
unfolding get_frame get_body
get_frame-At fr blank f rest v b at_ =
    let head = encode_header (counted fr).header_ in
    let body = fr.uuid ++ encode_objects fr.objects in
    let (f1, e1, at1) =
      get_header-At blank.header_ (counted fr).header_ f (body ++ rest) (counted-IsHeader fr v)
        v.zero_first (subst (At f) (append_assoc head body rest) at_) in
    let (f2, e2, at2) =
      get_uuid-At blank.uuid fr.uuid f1 (encode_objects fr.objects ++ rest) b.uuid_size v.uuid_size
        (subst (At f1) (append_assoc fr.uuid (encode_objects fr.objects) rest) at1) in
    let (f3, e3, at3) = get_objects-At fr.objects [] f2 rest v.objects_ok at2 in
    let all : length fr.objects % 2 ^ 16 ≡ length fr.objects = omega (arith, v.count) in
    (f3, ground (arith, e1, typed_counted fr v, e2, b.no_objects, all, e3), at3)

write_fits :
    (bytes held : List ℕ) (o : OFile)
    → o.file ≡ some held
    → length bytes ≤ o.room
    → write bytes o ≡ (record { file = some (held ++ bytes); room = o.room - length bytes }, true)
unfolding write
write_fits bytes held o e h = ground (arith, take_all o.room bytes h)

encode_objects_none : (bs : List Binary) → length bs ≡ 0 → encode_objects bs ≡ []
unfolding encode_objects
encode_objects_none [] h = refl
encode_objects_none (b ∷ bs) h = absurd (omega arith)

-- `put` appends exactly the frame's bytes.
pub put_frame_lem :
    (fr : BinaryFrame) (held : List ℕ) (o : OFile)
    → o.file ≡ some held
    → length (encode_frame fr) ≤ o.room
    → put_frame fr o ≡ (
      record { file = some (held ++ encode_frame fr); room = o.room - length (encode_frame fr) },
      counted fr,
      true,
    )
unfolding put_frame
put_frame_lem fr held o e h =
    let head = encode_header (counted fr).header_ in
    let body = encode_objects fr.objects in
    let l1 = length-append head (fr.uuid ++ body) in
    let l2 = length-append fr.uuid body in
    let w1 = write_fits head held o e (omega arith) in
    let o1 : OFile = record { file = some (held ++ head); room = o.room - length head } in
    let w2 = write_fits fr.uuid (held ++ head) o1 refl (omega arith) in
    let o2 : OFile = record {
      file = some ((held ++ head) ++ fr.uuid);
      room = o1.room - length fr.uuid;
    } in
    let w3 = write_fits body ((held ++ head) ++ fr.uuid) o2 refl (omega arith) in
    rw (put_frame, w1, w2, w3)
      (ground (
        arith,
        append_assoc held head (fr.uuid ++ body),
        append_assoc (held ++ head) fr.uuid body,
        append-nil fr.uuid,
        encode_objects_none fr.objects,
      ))

abbrev pub AllFrame : List BinaryFrame → Type 0
AllFrame [] = Unit {0}
AllFrame (fr ∷ frs) = IsFrame fr × AllFrame frs

abbrev pub encode_all : List BinaryFrame → List ℕ
encode_all [] = []
encode_all (fr ∷ frs) = encode_frame fr ++ encode_all frs

-- A recording: the frames are put one after the other.
unfoldable pub put_all : List BinaryFrame → OFile → OFile × Bool
put_all [] o = (o, true)
put_all (fr ∷ frs) o =
    let (o1, fr', done) = put_frame fr o in let (o2, all) = put_all frs o1 in (o2, done && all)

-- A replay: `n` frames are read, each into a blank one.
unfoldable pub get_all : ℕ → BinaryFrame → IFile → IFile × List BinaryFrame × Bool
get_all zero blank f = (f, [], true)
get_all (suc n) blank f =
    let (f1, fr, done) = get_frame blank f in
    let (f2, frs, all) = get_all n blank f1 in (f2, fr ∷ frs, done && all)

put_all_lem :
    (frs : List BinaryFrame) (held : List ℕ) (o : OFile)
    → o.file ≡ some held
    → length (encode_all frs) ≤ o.room
    → ((put_all frs o).0.file ≡ some (held ++ encode_all frs)) × ((put_all frs o).1 ≡ true)
unfolding put_all
put_all_lem [] held o e h = (e ∙ ap some (sym (append-nil held)), refl)
put_all_lem (fr ∷ frs) held o e h =
    let len = length-append (encode_frame fr) (encode_all frs) in
    let first = put_frame_lem fr held o e (omega arith) in
    let o1 : OFile = record {
      file = some (held ++ encode_frame fr);
      room = o.room - length (encode_frame fr);
    } in
    let (file, done) = put_all_lem frs (held ++ encode_frame fr) o1 refl (omega arith) in
    rw (put_all, first)
      (file ∙ ap some (append_assoc held (encode_frame fr) (encode_all frs)), rw done)

get_all-At :
    (frs : List BinaryFrame) (blank : BinaryFrame) (f : IFile) (rest : List ℕ)
    → AllFrame frs
    → IsBlank blank
    → At f (encode_all frs ++ rest)
    → (f' : IFile) × (get_all (length frs) blank f ≡ (f', map counted frs, true)) × At f' rest
unfolding get_all
get_all-At [] blank f rest v b at_ = (f, refl, at_)
get_all-At (fr ∷ frs) blank f rest v b at_ =
    let (f1, e1, at1) =
      get_frame-At fr blank f (encode_all frs ++ rest) v.0 b
        (subst (At f) (append_assoc (encode_frame fr) (encode_all frs) rest) at_) in
    let (f2, e2, at2) = get_all-At frs blank f1 rest v.1 b at1 in (f2, ground (arith, e1, e2), at2)

end_of_file : (f : IFile) → At f [] → is_eof f ≡ true
unfolding is_eof
end_of_file f v = ground (arith, v.open_at, v.size, ap length v.unread, length-drop v.pos f.buffer)

-- Frames that are put into an open file with room for them are all written; a file with these bytes,
-- read from where the recording began, gives the same frames in order, each with its number of
-- objects in the header, and is then at its end.
pub get_all-put_all :
    (frs : List BinaryFrame) (blank : BinaryFrame) (held : List ℕ) (o : OFile) (f : IFile)
    → AllFrame frs
    → IsBlank blank
    → o.file ≡ some held
    → length (encode_all frs) ≤ o.room
    → (put_all frs o).0.file ≡ some f.buffer
    → f.file_size ≡ length f.buffer
    → f.buffer_pos ≡ some (length held)
    → ((put_all frs o).1 ≡ true)
      × ((f' : IFile) × (get_all (length frs) blank f ≡ (f', map counted frs, true))
          × (is_eof f' ≡ true))
get_all-put_all frs blank held o f v b e h same size start =
    let (file, done) = put_all_lem frs held o e h in
    let bytes : held ++ encode_all frs ≡ f.buffer = cc in
    let begin : At f (encode_all frs ++ []) = record {
      pos = length held;
      open_at = start;
      unread = rw (← bytes) (drop-append held (encode_all frs) ∙ sym (append-nil (encode_all frs)));
      size = size;
      inside = rw (← bytes) (omega (arith, length-append held (encode_all frs)));
    } in
    let (f', read_all, at_end) = get_all-At frs blank f [] v b begin in
    (done, (f', read_all, end_of_file f' at_end))

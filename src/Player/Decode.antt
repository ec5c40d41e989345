-- ===== src/Player/Decode.antt =====
-- `decodeFrame`: each identifier of a frame's objects has the first object of this identifier.
use lidar.Prelude.{
  ℕ, List, [], ◌∷◌, Option, none, some, ◌≡◌, refl, ◌∙◌, inl, inr, arith, ◌==◌, if◌then◌else◌,
  Bool-cases, Option-cases, find, count, emplace, find-assign, find_other, length,
}
use lidar.Packed.Format.{Binary, BinaryFrame}
use lidar.Player.{
  ObsvObject, ObsvObjects, id_key, id-same→eq, decode_object, decode_objects, decode_frame,
}

-- The first object of a frame that is decoded with an identifier.
abbrev pub first_object : BinaryFrame → ℕ → List Binary → Option ObsvObject
first_object frame id [] = none
first_object frame id (b ∷ bs) =
    let rest = first_object frame id bs in
    if id == (decode_object frame b).id then some (decode_object frame b) else rest

abbrev pub or_first : Option ObsvObject → Option ObsvObject → Option ObsvObject
or_first none w = w
or_first (some v) w = some v

find-emplace :
    (j k : ℕ) (o : ObsvObject) (m : List (ℕ × ObsvObject))
    → find id_key j (emplace id_key k o m)
      ≡ or_first (find id_key j m) (if j == k then some o else none)
unfolding emplace count
find-emplace j k o m = elim (Bool-cases (j == k)) [
  | inl e ↦
      let s = id-same→eq j k e in
      elim (Option-cases (find id_key k m)) [
        | inl n ↦ ground (arith, s, n, e, find-assign id_key k o m)
        | inr (w, h) ↦ ground (arith, s, h, e)
      ]
  | inr d ↦ elim (Option-cases (find id_key j m)) [
    | inl n ↦ ground (arith, d, n, find_other id_key j k o m d)
    | inr (w, h) ↦ ground (arith, d, h, find_other id_key j k o m d)
  ]
]

find-decode_objects :
    (frame : BinaryFrame) (id : ℕ) (bs : List Binary) (m : List (ℕ × ObsvObject))
    → find id_key id (decode_objects frame bs m)
      ≡ or_first (find id_key id m) (first_object frame id bs)
unfolding decode_objects
find-decode_objects frame id [] m = ground arith
find-decode_objects frame id (b ∷ bs) m =
    let o = decode_object frame b in
    find-decode_objects frame id bs (emplace id_key o.id o m)
    ∙ ground (arith, find-emplace id o.id o m)

-- After `decodeFrame`, an identifier has the object that is the first of this identifier in the frame,
-- and exactly the frame's identifiers are there; whatever was in the objects before is gone.
pub find-decode_frame :
    (frame : BinaryFrame) (old : ObsvObjects) (id : ℕ)
    → (find id_key id (decode_frame frame old).objects ≡ first_object frame id frame.objects)
      × ((decode_frame frame old).valid_count ≡ length (decode_frame frame old).objects)
unfolding decode_frame find
find-decode_frame frame old id = (find-decode_objects frame id frame.objects [], refl)

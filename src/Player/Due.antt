-- ===== src/Player/Due.antt =====
-- `grabFrame`: frames whose time is over are passed over, and the next one is given when it is due, and
-- left in the file when it comes later.
use mathlib.Core.List.{append_assoc}
use lidar.Prelude.{
  ℕ, zero, suc, ◌<◌, false, List, [], ◌∷◌, ◌++◌, Option, some, ◌≡◌, refl, ap, sym, subst, ◌∙◌,
  arith, drop, length-append, length-drop, ◌≢◌, length,
}
use lidar.Packed.Format.{Header, header, frame_header, unknown, encode_header, BinaryFrame}
use lidar.Packed.Fields.{length-encode_header}
use lidar.Packed.Stream.{is_eof, IFile, encode_objects, is_open, seek}
use lidar.Packed.RoundTrip.{At}
use lidar.Packed.Frames.{IsFrame, counted, encode_frame, AllFrame, encode_all}
use lidar.Player.{PackedPlayer}
use lidar.Player.Replay.{counted_typed}
use lidar.Player.Grab.{Due, due, later, passed, due_of, minus64, grab_loop, grab_frame}
use lidar.Player.Reads.{Reads, Reads-frame, open_at_place}

-- The time of each frame is over.
abbrev pub AllPassed : ℕ → ℕ → List BinaryFrame → Type 0
AllPassed begin_time current_time [] = Unit {0}
AllPassed begin_time current_time (fr ∷ frs) =
    (due_of begin_time current_time fr ≡ passed) × AllPassed begin_time current_time frs

due_counted : (b c : ℕ) (fr : BinaryFrame) → due_of b c (counted fr) ≡ due_of b c fr
unfolding due_of
due_counted b c fr = refl

-- How a call of `grabFrame` ends at a frame that is not passed over.
abbrev pub Ends : Due → ℕ → BinaryFrame → List ℕ → Option (PackedPlayer × BinaryFrame × ℕ) → Type 0
Ends due now fr rest r =
    (p : PackedPlayer) × (f : IFile) × (r ≡ some (p, counted fr, frame_header))
    × (p.file ≡ some f)
    × (p.current_frame ≡ counted fr)
    × (f.current_time ≡ minus64 now f.start_time)
    × At f rest
Ends later now fr rest r =
    (p : PackedPlayer) × (f : IFile) × (r ≡ some (p, counted fr, unknown))
    × (p.file ≡ some f)
    × At f (encode_frame fr ++ rest)
Ends passed now fr rest r = Unit {0}

due_end :
    (fr frame : BinaryFrame) (h : Header) (f : IFile) (p : PackedPlayer) (rest : List ℕ)
    (fuel now : ℕ)
    → IsFrame fr
    → Reads fr frame h f p rest
    → due_of f.begin_time f.current_time fr ≡ due
    → Ends due now fr rest (grab_loop (suc fuel) now h frame f p)
unfolding grab_loop
due_end fr frame h f p rest fuel now v r d =
    let (kb, kc, kbuf, ks) = r.kept in
    let at2 = r.after in
    let g = record r.f2 { current_time = minus64 now r.f2.start_time } in
    (
      record p { file = some g; last_frame = p.current_frame; current_frame = counted fr },
      g,
      ground (
        arith,
        r.head,
        r.body,
        counted_typed fr v,
        due_counted f.begin_time f.current_time fr,
        d,
        kb,
        kc,
      ),
      refl,
      refl,
      refl,
      record {
        pos = at2.pos;
        open_at = at2.open_at;
        unread = at2.unread;
        size = at2.size;
        inside = at2.inside;
      },
    )

later_end :
    (fr frame : BinaryFrame) (h : Header) (f : IFile) (p : PackedPlayer) (rest : List ℕ)
    (fuel now : ℕ)
    → IsFrame fr
    → (v : At f (encode_frame fr ++ rest)) → Reads fr frame h f p rest
    → due_of f.begin_time f.current_time fr ≡ later
    → Ends later now fr rest (grab_loop (suc fuel) now h frame f p)
unfolding grab_loop seek is_open
later_end fr frame h f p rest fuel now v0 v r d =
    let (kb, kc, kbuf, ks) = r.kept in
    let at2 = r.after in
    let g = record r.f2 { buffer_pos = some v.pos } in
    (
      record p { file = some g; last_frame = p.current_frame; current_frame = counted fr },
      g,
      ground (
        arith,
        r.head,
        r.body,
        counted_typed fr v0,
        due_counted f.begin_time f.current_time fr,
        d,
        kb,
        kc,
        at2.open_at,
        open_at_place f (encode_frame fr ++ rest) v,
      ),
      refl,
      record {
        pos = v.pos;
        open_at = refl;
        unread = ap (drop v.pos) kbuf ∙ v.unread;
        size = at2.size;
        inside = rw kbuf v.inside;
      },
    )

passed_on :
    (fr frame : BinaryFrame) (h : Header) (f : IFile) (p : PackedPlayer) (rest : List ℕ)
    (fuel now : ℕ)
    → IsFrame fr
    → (r : Reads fr frame h f p rest) → due_of f.begin_time f.current_time fr ≡ passed
    → grab_loop (suc fuel) now h frame f p
      ≡ grab_loop fuel now
          (counted fr).header_
          (counted fr)
          r.f2
          (record p { file = some r.f2; last_frame = p.current_frame; current_frame = counted fr })
unfolding grab_loop
passed_on fr frame h f p rest fuel now v r d =
    let (kb, kc, kbuf, ks) = r.kept in
    ground (
      arith,
      r.head,
      r.body,
      counted_typed fr v,
      due_counted f.begin_time f.current_time fr,
      d,
      kb,
      kc,
    )

ends :
    (d : Due) (fr frame : BinaryFrame) (h : Header) (f : IFile) (p : PackedPlayer) (rest : List ℕ)
    (fuel now : ℕ)
    → IsFrame fr
    → length frame.uuid ≡ 16
    → At f (encode_frame fr ++ rest)
    → due_of f.begin_time f.current_time fr ≡ d
    → Ends d now fr rest (grab_loop (suc fuel) now h frame f p)
ends due fr frame h f p rest fuel now v u at_ e =
    due_end fr frame h f p rest fuel now v (Reads-frame fr frame h f p rest v u at_) e
ends later fr frame h f p rest fuel now v u at_ e =
    later_end fr frame h f p rest fuel now v at_ (Reads-frame fr frame h f p rest v u at_) e
ends passed fr frame h f p rest fuel now v u at_ e = tt

loop-Ends :
    (d : Due) (olds : List BinaryFrame) (fr frame : BinaryFrame) (h : Header) (f : IFile)
    (p : PackedPlayer) (rest : List ℕ) (fuel now b c : ℕ)
    → AllFrame olds
    → IsFrame fr
    → length frame.uuid ≡ 16
    → At f (encode_all olds ++ (encode_frame fr ++ rest))
    → f.begin_time ≡ b
    → f.current_time ≡ c
    → AllPassed b c olds
    → due_of b c fr ≡ d
    → length olds < fuel
    → Ends d now fr rest (grab_loop fuel now h frame f p)
loop-Ends d olds fr frame h f p rest zero now b c vs v u at_ eb ec ps e l = absurd (omega arith)
loop-Ends d [] fr frame h f p rest (suc fuel) now b c vs v u at_ eb ec ps e l =
    ends d fr frame h f p rest fuel now v u at_ (rw (eb, ec) e)
loop-Ends d (old ∷ olds) fr frame h f p rest (suc fuel) now b c (w, vs) v u at_ eb ec (q, ps) e l =
    let tail = encode_all olds ++ (encode_frame fr ++ rest) in
    let r = Reads-frame old frame h f p tail w u (
      subst (At f) (append_assoc (encode_frame old) (encode_all olds) (encode_frame fr ++ rest))
        at_) in
    let (kb, kc, kbuf, ks) = r.kept in
    let p' = record p {
      file = some r.f2;
      last_frame = p.current_frame;
      current_frame = counted old;
    } in
    subst (Ends d now fr rest) (sym (passed_on old frame h f p tail fuel now w r (rw (eb, ec) q))) (
      loop-Ends d olds fr (counted old) (counted old).header_ r.f2 p' rest fuel now b c vs v
        w.uuid_size r.after (kb ∙ eb) (kc ∙ ec) ps e (omega arith))

not_eof : (f : IFile) (bytes : List ℕ) → At f bytes → 0 < length bytes → is_eof f ≡ false
unfolding is_eof
not_eof f bytes v l =
    ground (arith, v.open_at, v.size, ap length v.unread, length-drop v.pos f.buffer, l)

long_enough :
    (olds : List BinaryFrame) (fr : BinaryFrame) (rest : List ℕ)
    → 0 < length (encode_all olds ++ (encode_frame fr ++ rest))
long_enough [] fr rest = omega (
  arith,
  length-encode_header (counted fr).header_,
  length-append (encode_frame fr) rest,
  length-append (encode_header (counted fr).header_) (fr.uuid ++ encode_objects fr.objects),
)
long_enough (old ∷ olds) fr rest =
    let tail = encode_frame fr ++ rest in
    omega (
      arith,
      length-append (encode_frame old ++ encode_all olds) tail,
      length-append (encode_frame old) (encode_all olds),
      length-append (encode_header (counted old).header_) (old.uuid ++ encode_objects old.objects),
      length-encode_header (counted old).header_,
    )

-- At recorded frames of which the first ones are over at the time `timestamp`, `grabFrame` ends at the
-- first frame that is not, within as many rounds as there are frames up to it: a frame that is due
-- within 750 milliseconds is given, and the file stands behind it; for a later one the result is
-- `Unknown`, and the file stands in front of that frame.
pub grab_frame-Ends :
    (d : Due) (olds : List BinaryFrame) (fr frame : BinaryFrame) (f : IFile) (p : PackedPlayer)
    (rest : List ℕ) (fuel clock now timestamp : ℕ)
    → AllFrame olds
    → IsFrame fr
    → length frame.uuid ≡ 16
    → p.file ≡ some f
    → At f (encode_all olds ++ (encode_frame fr ++ rest))
    → timestamp ≢ 0
    → AllPassed f.begin_time (minus64 timestamp f.start_time) olds
    → due_of f.begin_time (minus64 timestamp f.start_time) fr ≡ d
    → length olds < fuel
    → Ends d now fr rest (grab_frame fuel clock now frame timestamp p)
unfolding grab_frame
grab_frame-Ends d olds fr frame f p rest fuel clock now timestamp vs v u e at_ nz ps due_ l =
    let timed = record f { current_time = minus64 timestamp f.start_time } in
    let there =
      not_eof f (encode_all olds ++ (encode_frame fr ++ rest)) at_ (long_enough olds fr rest) in
    let at' : At timed (encode_all olds ++ (encode_frame fr ++ rest)) = record {
      pos = at_.pos;
      open_at = at_.open_at;
      unread = at_.unread;
      size = at_.size;
      inside = at_.inside;
    } in
    let blank = record frame { objects = [] } in
    let start = record p { file = some timed } in
    let run : grab_frame fuel clock now frame timestamp p
        ≡ grab_loop fuel now (header 0 frame_header) blank timed start =
      ground (arith, e, there, nz) in
    subst (Ends d now fr rest) (sym run) (
      loop-Ends d olds fr blank (header 0 frame_header) timed start rest fuel now f.begin_time
        (minus64 timestamp f.start_time) vs v u at' refl refl ps due_ l)

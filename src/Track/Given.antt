-- ===== src/Track/Given.antt =====
-- The numbers that `unite` gives: in the loop that drops what was not seen for long.
use lidar.Prelude.{
  ℕ, ◌+◌, ◌^◌, ◌<◌, ◌≤◌, Bool, true, false, not, ◌||◌, List, some, ◌≡◌, refl, ap, sym, subst, ◌∙◌,
  inl, inr, ◌⊎◌, arith, leb, ◌==◌, Bool-cases, Option-cases, get_elem?, same_bytes, same_bytes→eq,
}
use lidar.KeyValue.Map.{Text}
use lidar.Track.{put, Trackable, Space, is_empty, give_id, next_id}
use lidar.Track.Merge.{update_at}
use lidar.Track.Ids.{
  one_if, total, total-update_at, held, held_live, held_live-put, held_live-put_grows,
  total-update_at_le, total-update_at_plus, get_elem?-update_at, update_at_grows,
}
use lidar.Track.Steps.{keep_latent_id, put_latent_id, find_host}

-- Printed numbers are read back.
abbrev pub IsRead : (ℕ → Text) → (Text → ℕ) → Type 0
IsRead print parse = (n : ℕ) → parse (print n) ≡ n

module _ {F D : Type 0} (s : Space F D) (parse : Text → ℕ) (k : Text) where
  -- A number that has been given: up to the last one.
  abbrev pub issued : ℕ → Bool
  issued last = leb (parse k) last

  -- An identifier that has been given stands in one place at most, and no other one stands anywhere.
  abbrev pub IsUnique : ℕ → ℕ → Type 0
  IsUnique last places = places ≤ one_if (issued last)

  -- What giving a name does to the numbers and to the trackable.
  pub give_id_lem :
      IsRead s.print parse
      → (starttime last : ℕ) (t : Trackable F) → last + 1 < 2 ^ 32
      → (give_id s starttime last t ≡ (last, t))
        ⊎ ((give_id s starttime last t ≡ (last + 1, record t { id = s.print (last + 1) }))
            × (same_bytes k (s.print (last + 1)) ≡ true → parse k ≡ last + 1))
  unfolding give_id next_id
  give_id_lem r starttime last t h =
      let next : next_id last ≡ last + 1 = ground (arith, h) in
      let same : same_bytes k (s.print (last + 1)) ≡ true → parse k ≡ last + 1 =
        λ e. ap parse (same_bytes→eq k (s.print (last + 1)) e) ∙ r (last + 1) in
      elim (Bool-cases (is_empty t.id || not (starttime == 0))) [
        | inl new ↦ rw (new, next) (inr (refl, same))
        | inr old ↦ rw (old) (inl refl)
      ]

  erased_none : (z : Trackable F) → held_live k (record z { erasable = true }) ≡ 0
  unfolding held_live
  erased_none z = refl

  -- What stands in a trackable is its id, at least.
  held_id : (x : Trackable F) → x.erasable ≡ false → one_if (same_bytes k x.id) ≤ held_live k x
  unfolding held_live held
  held_id x live = ground (arith, live)

  -- A trackable is erased, and its id kept by a host.
  id_moves :
      (y : Trackable F) (timestamp host i : ℕ) (current : List (Trackable F)) (x : Trackable F)
      → get_elem? current i ≡ some x
      → total (held_live k) (
            update_at i
              (λ t. record t { erasable = true })
              (keep_latent_id s timestamp host i y current))
          + held_live k x
        ≤ total (held_live k) current + one_if (same_bytes k y.id)
  unfolding keep_latent_id
  id_moves y timestamp host i current x there =
      let put_ : Trackable F → Trackable F =
        λ t. record t { latent_ids = put y.id timestamp t.latent_ids } in
      let erase_ : Trackable F → Trackable F = λ t. record t { erasable = true } in
      let named = update_at i (λ (t : Trackable F). y) current in
      let kept = update_at host put_ named in
      let one = total-update_at (held_live k) (λ t. y) i current x there in
      let two =
        total-update_at_plus (held_live k) put_ (one_if (same_bytes k y.id)) host named
          (held_live-put k y.id timestamp) in
      let (z, at_, heavy) =
        update_at_grows (held_live k) put_ host i named y (held_live-put_grows k y.id timestamp)
          (get_elem?-update_at (λ t. y) i current x there) in
      let three = total-update_at (held_live k) erase_ i kept z at_ in
      let none_ = erased_none z in omega arith

  pub erased_le : (z : Trackable F) → held_live k (record z { erasable = true }) ≤ held_live k z
  unfolding held_live
  erased_le z = ground arith

  -- `putLatentId` changes nothing, or a host keeps the id.
  pub put_latent_id_cases :
      (time timestamp i last : ℕ) (current : List (Trackable F)) (x : Trackable F)
      → get_elem? current i ≡ some x
      → (put_latent_id s time timestamp i (last, current) ≡ (last, current))
        ⊎ ((host : ℕ) × (put_latent_id s time timestamp i (last, current) ≡ (
          (give_id s 0 last x).0,
          keep_latent_id s timestamp host i (give_id s 0 last x).1 current,
        )))
  unfolding put_latent_id
  put_latent_id_cases time timestamp i last current x there =
      elim (Option-cases (find_host s time i x 0 current).1) [
        | inl no_host ↦ inl (ground (arith, there, no_host))
        | inr (host, found) ↦ elim (Bool-cases s.keeps_latent) [
          | inl on ↦ inr (host, ground (arith, there, found, on))
          | inr off ↦ inl (ground (arith, there, found, off))
        ]
      ]

  -- The trackables and the last number, when the one at an index is erased.
  abbrev pub Erased : ℕ → ℕ → ℕ × List (Trackable F) → Type 0
  Erased i last r =
      IsUnique r.0 (total (held_live k) (update_at i (λ t. record t { erasable = true }) r.1))
      × (last ≤ r.0)
      × (r.0 ≤ last + 1)

  -- The id of a trackable that is erased moves to a host, if there is one.
  pub put_latent_id_lem :
      IsRead s.print parse
      → (time timestamp i last : ℕ) (current : List (Trackable F)) (x : Trackable F)
      → get_elem? current i ≡ some x
      → x.erasable ≡ false
      → last + 1 < 2 ^ 32
      → IsUnique last (total (held_live k) current)
      → Erased i last (put_latent_id s time timestamp i (last, current))
  put_latent_id_lem r time timestamp i last current x there live room unique =
      let erase_ : Trackable F → Trackable F = λ t. record t { erasable = true } in
      let lighter = total-update_at_le (held_live k) erase_ i current (λ t. erased_le t) in
      let left : Erased i last (last, current) =
        (ground (arith, lighter, unique), omega arith, omega arith) in
      elim (put_latent_id_cases time timestamp i last current x there) [
        | inl same ↦ subst (Erased i last) (sym same) left
        | inr (host, put_) ↦
            let kept : ℕ × Trackable F → ℕ × List (Trackable F) =
              λ n. (n.0, keep_latent_id s timestamp host i n.1 current) in
            let go : Erased i last (kept (give_id s 0 last x)) =
              elim (give_id_lem r 0 last x room) [
                | inl old ↦
                    let moved = id_moves x timestamp host i current x there in
                    let id_ = held_id x live in
                    subst (λ n. Erased i last (kept n)) (sym old)
                      (ground (arith, moved, id_, unique), omega arith, omega arith)
                | inr (new, printed) ↦
                    let y : Trackable F = record x { id = s.print (last + 1) } in
                    let moved = id_moves y timestamp host i current x there in
                    subst (λ n. Erased i last (kept n)) (sym new)
                      (ground (arith, moved, printed, unique), omega arith, omega arith)
              ] in
            subst (Erased i last) (sym put_) go
      ]

-- ===== src/Track/Marking.antt =====
-- The loop of `unite` that drops what was not seen for long keeps the identifiers unique.
use lidar.Prelude.{
  ℕ, zero, suc, ◌+◌, ◌^◌, ◌<◌, ◌≤◌, Bool, true, false, not, ◌&&◌, List, [], ◌∷◌, Option, some, ◌≡◌,
  refl, ap, sym, subst, ◌∙◌, inl, inr, ◌⊎◌, arith, Bool-cases, get_elem?, length,
}
use lidar.KeyValue.Map.{Text}
use lidar.Observer.Objects.{minus64}
use lidar.Track.{put, Trackable, Space, give_id}
use lidar.Track.Merge.{update_at}
use lidar.Track.Ids.{total, held, held_live, total-update_at_le, get_elem?-update_at}
use lidar.Track.Given.{IsRead, IsUnique, put_latent_id_lem, put_latent_id_cases, erased_le}
use lidar.Track.Steps.{keep_latent_id, put_latent_id, mark_lost, mark_all, mask_of, is_assigned}

module _ {F : Type 0} where
  -- The trackables below an index are not about to be erased.
  abbrev pub AreLive : ℕ → List (Trackable F) → Type 0
  AreLive n ts = (i : ℕ) (x : Trackable F) → i < n → get_elem? ts i ≡ some x → x.erasable ≡ false

  pub update_at_live :
      (g : Trackable F → Trackable F) (j i : ℕ) (ts : List (Trackable F)) (x : Trackable F)
      → ((t : Trackable F) → (g t).erasable ≡ t.erasable)
      → get_elem? (update_at j g ts) i ≡ some x
      → (y : Trackable F) × (get_elem? ts i ≡ some y) × (x.erasable ≡ y.erasable)
  unfolding update_at
  update_at_live g j i [] x h e = ground (arith, e)
  update_at_live g zero zero (t ∷ ts) x h e = (t, refl, ground (arith, e, h t))
  update_at_live g zero (suc i) (t ∷ ts) x h e = (x, e, refl)
  update_at_live g (suc j) zero (t ∷ ts) x h e = (t, refl, ground (arith, e))
  update_at_live g (suc j) (suc i) (t ∷ ts) x h e = update_at_live g j i ts x h e

  pub update_at-AreLive :
      (g : Trackable F → Trackable F) (j n : ℕ) (ts : List (Trackable F))
      → ((t : Trackable F) → (g t).erasable ≡ t.erasable)
      → AreLive n ts
      → AreLive n (update_at j g ts)
  update_at-AreLive g j n ts h live i x l e =
      let (y, there, same) = update_at_live g j i ts x h e in same ∙ live i y l there

  pub update_at_above :
      (g : Trackable F → Trackable F) (j i : ℕ) (ts : List (Trackable F))
      → i < j
      → get_elem? (update_at j g ts) i ≡ get_elem? ts i
  unfolding update_at
  update_at_above g j i [] l = refl
  update_at_above g zero i (t ∷ ts) l = absurd (omega arith)
  update_at_above g (suc j) zero (t ∷ ts) l = refl
  update_at_above g (suc j) (suc i) (t ∷ ts) l = update_at_above g j i ts (omega arith)

  pub update_at_above-AreLive :
      (g : Trackable F → Trackable F) (n : ℕ) (ts : List (Trackable F))
      → AreLive n ts
      → AreLive n (update_at n g ts)
  update_at_above-AreLive g n ts live i x l e = live i x l (sym (update_at_above g n i ts l) ∙ e)

  pub length-update_at :
      (g : Trackable F → Trackable F) (j : ℕ) (ts : List (Trackable F))
      → length (update_at j g ts) ≡ length ts
  unfolding update_at
  length-update_at g j [] = refl
  length-update_at g zero (t ∷ ts) = refl
  length-update_at g (suc j) (t ∷ ts) = ap suc (length-update_at g j ts)

module _ {F D : Type 0} (s : Space F D) (parse : Text → ℕ) (k : Text) where
  -- What `putLatentId` leaves as it is.
  put_latent_id-AreLive :
      (time timestamp i last : ℕ) (current : List (Trackable F)) (x : Trackable F)
      → get_elem? current i ≡ some x
      → AreLive i current
      → AreLive i (put_latent_id s time timestamp i (last, current)).1
        × (length (put_latent_id s time timestamp i (last, current)).1 ≡ length current)
  unfolding keep_latent_id
  put_latent_id-AreLive time timestamp i last current x there live =
      elim (put_latent_id_cases s parse k time timestamp i last current x there) [
        | inl same ↦
            subst (λ r. AreLive i r.1 × (length r.1 ≡ length current)) (sym same) (live, refl)
        | inr (host, put_) ↦
            let named = (give_id s 0 last x).1 in
            let inner = update_at i (λ (t : Trackable F). named) current in
            let store : Trackable F → Trackable F =
              λ t. record t { latent_ids = put named.id timestamp t.latent_ids } in
            subst (λ r. AreLive i r.1 × (length r.1 ≡ length current)) (sym put_)
              (
                update_at-AreLive store host i inner (λ t. refl)
                    (update_at_above-AreLive (λ t. named) i current live),
                length-update_at store host inner ∙ length-update_at (λ t. named) i current,
              )
      ]

  -- The state of the loop, of which so many rounds are left.
  abbrev pub Marked : ℕ → ℕ → ℕ → ℕ × List (Trackable F) → Type 0
  Marked n last size r =
      IsUnique s parse k r.0 (total (held_live k) r.1)
      × AreLive n r.1
      × (last ≤ r.0)
      × (r.0 ≤ last + 1)
      × (length r.1 ≡ size)

  touched_le :
      (b : Bool) (t : Trackable F) → held_live k (record t { is_touched = b }) ≤ held_live k t
  unfolding held_live held
  touched_le b t = ground arith

  -- The trackable is touched only, or erased, with or without a host for its id.
  pub mark_cases :
      (now time_diff : ℕ) (current_map : List (Option ℕ)) (i last : ℕ)
      (current : List (Trackable F)) (x : Trackable F)
      → get_elem? current i ≡ some x
      → let touched =
          update_at i (λ t. record t { is_touched = is_assigned current_map i }) current in
        let put_ = put_latent_id s time_diff now i (last, touched) in
        let erase_ : Trackable F → Trackable F = λ t. record t { erasable = true } in
        let marked = mark_lost s now time_diff current_map i (last, current) in
        (marked ≡ (last, touched))
        ⊎ ((marked ≡ (last, update_at i erase_ touched))
            ⊎ (marked ≡ (put_.0, update_at i erase_ put_.1)))
  unfolding mark_lost
  mark_cases now time_diff current_map i last current x there =
      let assigned = is_assigned current_map i in
      elim (Bool-cases (not assigned && s.is_lost (minus64 now x.last_time))) [
        | inr keep ↦ inl (ground (arith, there, keep))
        | inl lost ↦ elim (Bool-cases (mask_of s (record x { is_touched = assigned })).portal) [
          | inl gate ↦ inr (inl (ground (arith, there, lost, gate)))
          | inr free ↦ inr (inr (ground (arith, there, lost, free)))
        ]
      ]

  mark_lem :
      IsRead s.print parse
      → (now time_diff : ℕ) (current_map : List (Option ℕ)) (i last : ℕ)
        (current : List (Trackable F)) (x : Trackable F)
      → get_elem? current i ≡ some x
      → AreLive (suc i) current
      → last + 1 < 2 ^ 32
      → IsUnique s parse k last (total (held_live k) current)
      → Marked i last (length current) (mark_lost s now time_diff current_map i (last, current))
  mark_lem r now time_diff current_map i last current x there live room unique =
      let assigned = is_assigned current_map i in
      let touch : Trackable F → Trackable F = λ t. record t { is_touched = assigned } in
      let erase_ : Trackable F → Trackable F = λ t. record t { erasable = true } in
      let touched = update_at i touch current in
      let put_ = put_latent_id s time_diff now i (last, touched) in
      let below : AreLive i current = λ j y l e. live j y (omega arith) e in
      let below' = update_at_above-AreLive touch i current below in
      let size = length-update_at touch i current in
      let here = get_elem?-update_at touch i current x there in
      let same = total-update_at_le (held_live k) touch i current (touched_le assigned) in
      let unique' : IsUnique s parse k last (total (held_live k) touched) = omega arith in
      let lighter =
        total-update_at_le (held_live k) erase_ i touched (λ t. erased_le s parse k t) in
      let (gone, low, high) =
        put_latent_id_lem s parse k r time_diff now i last touched (touch x) here
          (live i x (omega arith) there) room unique' in
      let (kept, long) = put_latent_id-AreLive time_diff now i last touched (touch x) here below' in
      let P = Marked i last (length current) in
      elim (mark_cases now time_diff current_map i last current x there) [
        | inl e ↦ subst P (sym e) (unique', below', omega arith, omega arith, size)
        | inr (inl e) ↦ subst P (sym e) (
          omega arith,
          update_at_above-AreLive erase_ i touched below',
          omega arith,
          omega arith,
          length-update_at erase_ i touched ∙ size,
        )
        | inr (inr e) ↦ subst P (sym e) (
          gone,
          update_at_above-AreLive erase_ i put_.1 kept,
          low,
          high,
          length-update_at erase_ i put_.1 ∙ long ∙ size,
        )
      ]

  get_elem?_there :
      (i : ℕ) (ts : List (Trackable F))
      → i < length ts
      → (x : Trackable F) × (get_elem? ts i ≡ some x)
  get_elem?_there i [] h = absurd (omega arith)
  get_elem?_there zero (t ∷ ts) h = (t, refl)
  get_elem?_there (suc i) (t ∷ ts) h = get_elem?_there i ts (omega arith)

  -- The loop gives one number for each trackable at most, and keeps the identifiers unique.
  pub mark_all_lem :
      IsRead s.print parse
      → (now time_diff : ℕ) (current_map : List (Option ℕ)) (n last : ℕ)
        (current : List (Trackable F))
      → n ≤ length current
      → AreLive n current
      → last + n < 2 ^ 32
      → IsUnique s parse k last (total (held_live k) current)
      → let r = mark_all s now time_diff current_map n (last, current) in
        IsUnique s parse k r.0 (total (held_live k) r.1)
        × (r.0 ≤ last + n)
        × (length r.1 ≡ length current)
  unfolding mark_all
  mark_all_lem r now time_diff current_map zero last current short live room unique =
      (unique, omega arith, refl)
  mark_all_lem r now time_diff current_map (suc n) last current short live room unique =
      let (x, there) = get_elem?_there n current (omega arith) in
      let next = mark_lost s now time_diff current_map n (last, current) in
      let (u, l, low, high, size) =
        mark_lem r now time_diff current_map n last current x there live (omega arith) unique in
      let (u', few, long) =
        mark_all_lem r now time_diff current_map n next.0 next.1 (omega arith) l (omega arith) u in
      (u', omega arith, long ∙ size)

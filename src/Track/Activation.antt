-- ===== src/Track/Activation.antt =====
-- The trackables of `unite` that are activated, with the latent id of a host or a new number.
use lidar.Prelude.{
  ℕ, zero, suc, ◌+◌, ◌^◌, ◌<◌, ◌≤◌, true, false, not, ◌||◌, List, [], ◌∷◌, some, ◌≡◌, refl, sym,
  subst, inl, inr, ◌⊎◌, arith, Bool-cases, Option-cases, get_elem?, same_bytes,
}
use lidar.KeyValue.Map.{Text}
use lidar.Track.{Trackable, Space, is_empty, give_id, get_oldest}
use lidar.Track.Merge.{update_at}
use lidar.Track.Ids.{one_if, total, total-update_at, held, held-remove_id, count-get_oldest}
use lidar.Track.Given.{IsRead, IsUnique, give_id_lem}
use lidar.Track.Steps.{erase_at, mask_of, take_latent_id, activate}

module _ {F : Type 0} where
  -- Is a trackable about to be erased?
  abbrev pub erased : Trackable F → ℕ
  erased t = one_if t.erasable

  pub total-erase_at :
      (f : Trackable F → ℕ) (i : ℕ) (ts : List (Trackable F)) → total f (erase_at i ts) ≤ total f ts
  unfolding erase_at
  total-erase_at f i [] = omega arith
  total-erase_at f zero (t ∷ ts) = omega arith
  total-erase_at f (suc i) (t ∷ ts) = let rest = total-erase_at f i ts in omega arith

module _ {F D : Type 0} (s : Space F D) (k : Text) where
  not_empty : is_empty k ≡ false → 0 + one_if (same_bytes k []) ≤ 0
  unfolding is_empty same_bytes
  not_empty named = ground (arith, named)

  -- The id that is taken is gone where it was.
  pub held-take_latent_id :
      is_empty k ≡ false
      → (time : ℕ) (x : Trackable F) (ts : List (Trackable F))
      → let r = take_latent_id s time x ts in
        total (held k) r.0 + one_if (same_bytes k r.2) ≤ total (held k) ts
  unfolding take_latent_id
  held-take_latent_id named time x [] = not_empty named
  held-take_latent_id named time x (t ∷ ts) =
      let rest = held-take_latent_id named time x ts in
      elim (Bool-cases t.is_activated) [
        | inr off ↦ ground (arith, off, rest)
        | inl on ↦ elim (Option-cases (get_oldest t.latent_ids)) [
          | inl out ↦ ground (arith, on, out, rest)
          | inr ((id, lost), there) ↦
              let gone = held-remove_id k id t (count-get_oldest t.latent_ids id lost there) in
              elim (Option-cases (s.closer time x.place t.place (take_latent_id s time x ts).1)) [
                | inl far ↦ ground (arith, on, there, far, rest)
                | inr (d, near) ↦ ground (arith, on, there, near, rest, gone)
              ]
        ]
      ]

  -- Nothing but the latent ids of what is activated changes.
  pub take_latent_id_keeps :
      (time : ℕ) (x : Trackable F) (ts : List (Trackable F)) (i : ℕ) (y : Trackable F)
      → get_elem? ts i ≡ some y
      → y.is_activated ≡ false
      → get_elem? (take_latent_id s time x ts).0 i ≡ some y
  unfolding take_latent_id
  take_latent_id_keeps time x [] i y e off = ground (arith, e)
  take_latent_id_keeps time x (t ∷ ts) zero y e off = ground (arith, e, off)
  take_latent_id_keeps time x (t ∷ ts) (suc i) y e off =
      let rest = take_latent_id_keeps time x ts i y e off in ground (arith, rest)

  pub erased-take_latent_id :
      (time : ℕ) (x : Trackable F) (ts : List (Trackable F))
      → total erased (take_latent_id s time x ts).0 ≡ total erased ts
  unfolding take_latent_id
  erased-take_latent_id time x [] = refl
  erased-take_latent_id time x (t ∷ ts) =
      let rest = erased-take_latent_id time x ts in ground (arith, rest)

module _ {F D : Type 0} (s : Space F D) (parse : Text → ℕ) (k : Text) where
  abbrev pub active : Trackable F → Trackable F → Trackable F
  active x named = record named { is_activated = true; place = s.stay_here x.place }

  abbrev pub activated :
      ℕ → Trackable F → ℕ × Trackable F → List (Trackable F) → ℕ × List (Trackable F)
  activated i x named ts = (named.0, update_at i (λ t. active x named.1) ts)

  -- Which name an activated trackable gets.
  pub activate_cases :
      (starttime time_diff i : ℕ) (x : Trackable F) (last : ℕ) (current : List (Trackable F))
      → let found = take_latent_id s time_diff x current in
        let named = give_id s starttime last x in
        let r = activate s starttime time_diff i x (last, current) in
        (r ≡ activated i x named current)
        ⊎ ((r ≡ activated i x named found.0)
            ⊎ ((is_empty found.2 ≡ false)
                × (r ≡ activated i x (last, record x { id = found.2 }) found.0)))
  unfolding activate is_empty
  activate_cases starttime time_diff i x last current =
      elim (Bool-cases ((mask_of s x).portal || not s.keeps_latent)) [
        | inl without ↦ inl (rw (without) refl)
        | inr with_ ↦ elim (Bool-cases (is_empty (take_latent_id s time_diff x current).2)) [
          | inl new ↦ inr (inl (rw (with_, new) refl))
          | inr old ↦ inr (inr (old, rw (with_, old) refl))
        ]
      ]

  -- What holds after a round, which gives one number at most.
  abbrev pub Kept : ℕ → List (Trackable F) → ℕ × List (Trackable F) → Type 0
  Kept last current r =
      IsUnique s parse k r.0 (total (held k) r.1)
      × (total erased r.1 ≤ total erased current)
      × (last ≤ r.0)
      × (r.0 ≤ last + 1)

  held-active :
      (x : Trackable F) (id : Text)
      → held k (active x (record x { id = id })) ≤ held k x + one_if (same_bytes k id)
  unfolding held
  held-active x id = omega arith

  -- A trackable is activated under an id that is its own, or has left another place or none.
  activated_lem :
      (i last next : ℕ) (x : Trackable F) (id : Text) (ts current : List (Trackable F))
      → get_elem? ts i ≡ some x
      → total erased ts ≤ total erased current
      → last ≤ next
      → next ≤ last + 1
      → IsUnique s parse k next (total (held k) ts + one_if (same_bytes k id))
      → Kept last current (activated i x (next, record x { id = id }) ts)
  activated_lem i last next x id ts current there live low high unique =
      let named = record x { id = id } in
      let ids = total-update_at (held k) (λ t. active x named) i ts x there in
      let flags = total-update_at erased (λ t. active x named) i ts x there in
      let one = held-active x id in (omega arith, omega arith, low, high)

  own_id :
      (i last : ℕ) (x : Trackable F) (ts current : List (Trackable F))
      → get_elem? ts i ≡ some x
      → total erased ts ≤ total erased current
      → IsUnique s parse k last (total (held k) ts)
      → Kept last current (activated i x (last, x) ts)
  unfolding held
  own_id i last x ts current there live unique =
      let ids = total-update_at (held k) (λ t. active x x) i ts x there in
      let flags = total-update_at erased (λ t. active x x) i ts x there in
      (omega arith, omega arith, omega arith, omega arith)

  new_id :
      IsRead s.print parse
      → (starttime i last : ℕ) (x : Trackable F) (ts current : List (Trackable F))
      → get_elem? ts i ≡ some x
      → total erased ts ≤ total erased current
      → last + 1 < 2 ^ 32
      → IsUnique s parse k last (total (held k) ts)
      → Kept last current (activated i x (give_id s starttime last x) ts)
  new_id r starttime i last x ts current there live room unique =
      let P : ℕ × Trackable F → Type 0 = λ n. Kept last current (activated i x n ts) in
      elim (give_id_lem s parse k r starttime last x room) [
        | inl old ↦ subst P (sym old) (own_id i last x ts current there live unique)
        | inr (new, printed) ↦ subst P (sym new) (
            activated_lem i last (last + 1) x (s.print (last + 1)) ts current there live
              (omega arith) (omega arith) (ground (arith, printed, unique)))
      ]

  pub activate_lem :
      IsRead s.print parse
      → is_empty k ≡ false
      → (starttime time_diff i last : ℕ) (x : Trackable F) (current : List (Trackable F))
      → get_elem? current i ≡ some x
      → x.is_activated ≡ false
      → last + 1 < 2 ^ 32
      → IsUnique s parse k last (total (held k) current)
      → Kept last current (activate s starttime time_diff i x (last, current))
  activate_lem r word starttime time_diff i last x current there off room unique =
      let found = take_latent_id s time_diff x current in
      let gone = held-take_latent_id s k word time_diff x current in
      let flags = erased-take_latent_id s k time_diff x current in
      let same = take_latent_id_keeps s k time_diff x current i x there off in
      elim (activate_cases starttime time_diff i x last current) [
        | inl e ↦
            subst (Kept last current) (sym e)
              (new_id r starttime i last x current current there (omega arith) room unique)
        | inr (inl e) ↦
            subst (Kept last current) (sym e)
              (new_id r starttime i last x found.0 current same (omega arith) room (omega arith))
        | inr (inr (_, e)) ↦ subst (Kept last current) (sym e) (
            activated_lem i last last x found.2 found.0 current same (omega arith) (omega arith)
              (omega arith) (omega arith))
      ]

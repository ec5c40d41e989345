-- ===== src/Track/Latest.antt =====
-- The loop of `unite` that transfers shows only what is activated.
use lidar.Prelude.{
  ℕ, zero, suc, ◌+◌, ◌≤◌, Bool, true, not, List, [], ◌∷◌, ◌++◌, none, some, ◌≡◌, refl, ap, sym,
  subst, ◌∙◌, inl, inr, ◌⊎◌, arith, Bool-cases, Option-cases, get_elem?, length, length-append,
}
use lidar.Track.{Trackable, Space, give_id, check_immobile, touch_private}
use lidar.Track.Merge.{update_at}
use lidar.Track.Ids.{one_if, total, get_elem?-update_at}
use lidar.Track.Activation.{activate_cases}
use lidar.Track.Transfer.{round_lem, update_at_out}
use lidar.Track.Steps.{erase_at, take_latent_id, activate, show, transfer_active, keep_shown}

module _ {F : Type 0} where
  -- Is a trackable not activated?
  abbrev pub inactive : Trackable F → ℕ
  inactive t = one_if (not t.is_activated)

  -- How many of those that are shown are not activated.
  abbrev pub wrong : List Bool → List (Trackable F) → ℕ
  wrong shown ts = total inactive (keep_shown shown ts)

  pub wrong_none : (ts : List (Trackable F)) → wrong [] ts ≡ 0
  unfolding keep_shown
  wrong_none [] = refl
  wrong_none (t ∷ ts) = refl

  wrong-update_at :
      (g : Trackable F → Trackable F) (i : ℕ) (shown : List Bool) (ts : List (Trackable F))
      → length shown ≤ i
      → wrong shown (update_at i g ts) ≡ wrong shown ts
  unfolding keep_shown update_at
  wrong-update_at g i shown [] h = refl
  wrong-update_at g zero [] (t ∷ ts) h = refl
  wrong-update_at g (suc i) [] (t ∷ ts) h = refl
  wrong-update_at g zero (b ∷ shown) (t ∷ ts) h = absurd (omega arith)
  wrong-update_at g (suc i) (b ∷ shown) (t ∷ ts) h =
      let rest = wrong-update_at g i shown ts (omega arith) in ground (arith, rest)

  wrong-erase_at :
      (i : ℕ) (shown : List Bool) (ts : List (Trackable F))
      → length shown ≤ i
      → wrong shown (erase_at i ts) ≡ wrong shown ts
  unfolding keep_shown erase_at
  wrong-erase_at i shown [] h = refl
  wrong-erase_at zero [] (t ∷ []) h = refl
  wrong-erase_at zero [] (t ∷ u ∷ ts) h = refl
  wrong-erase_at (suc i) [] (t ∷ ts) h = refl
  wrong-erase_at zero (b ∷ shown) (t ∷ ts) h = absurd (omega arith)
  wrong-erase_at (suc i) (b ∷ shown) (t ∷ ts) h =
      let rest = wrong-erase_at i shown ts (omega arith) in ground (arith, rest)

  -- One more is shown, or not.
  wrong_more :
      (b : Bool) (i : ℕ) (shown : List Bool) (ts : List (Trackable F)) (y : Trackable F)
      → length shown ≡ i
      → (get_elem? ts i ≡ some y) ⊎ (get_elem? ts i ≡ none)
      → (b ≡ true → y.is_activated ≡ true)
      → wrong (shown ++ b ∷ []) ts ≡ wrong shown ts
  unfolding keep_shown
  wrong_more b i shown [] y h here on = refl
  wrong_more b zero [] (t ∷ ts) y h (inl here) on =
      let same : t ≡ y = ground (arith, here) in
      let active : b ≡ true → t.is_activated ≡ true =
        λ e. ap (λ (x : Trackable F). x.is_activated) same ∙ on e in
      let rest = wrong_none ts in
      elim (Bool-cases b) [
        | inl shown_ ↦ let now = active shown_ in ground (arith, shown_, now, rest)
        | inr hidden ↦ ground (arith, hidden, rest)
      ]
  wrong_more b zero [] (t ∷ ts) y h (inr out) on = ground (arith, out)
  wrong_more b (suc i) [] (t ∷ ts) y h here on = absurd (omega arith)
  wrong_more b zero (c ∷ shown) (t ∷ ts) y h here on = absurd (omega arith)
  wrong_more b (suc i) (c ∷ shown) (t ∷ ts) y h here on =
      let rest = wrong_more b i shown ts y (omega arith) here on in ground (arith, rest)

module _ {F D : Type 0} (s : Space F D) where
  wrong-take_latent_id :
      (time : ℕ) (x : Trackable F) (shown : List Bool) (ts : List (Trackable F))
      → wrong shown (take_latent_id s time x ts).0 ≡ wrong shown ts
  unfolding take_latent_id keep_shown
  wrong-take_latent_id time x shown [] = refl
  wrong-take_latent_id time x [] (t ∷ ts) = wrong_none (take_latent_id s time x (t ∷ ts)).0
  wrong-take_latent_id time x (b ∷ shown) (t ∷ ts) =
      let rest = wrong-take_latent_id time x shown ts in ground (arith, rest)

  show_on :
      (timestamp : ℕ) (t : Trackable F)
      → (show s timestamp t).1 ≡ true
      → (show s timestamp t).0.is_activated ≡ true
  unfolding show check_immobile touch_private
  show_on timestamp t h = ground (arith, h)

  wrong-activate :
      (starttime time_diff i last : ℕ) (x : Trackable F) (shown : List Bool)
      (current : List (Trackable F))
      → length shown ≡ i
      → wrong shown (activate s starttime time_diff i x (last, current)).1 ≡ wrong shown current
  wrong-activate starttime time_diff i last x shown current h =
      let found = take_latent_id s time_diff x current in
      let same = wrong-take_latent_id time_diff x shown current in
      let named = give_id s starttime last x in
      let new : Trackable F → Trackable F =
        λ n. record n { is_activated = true; place = s.stay_here x.place } in
      let P : ℕ × List (Trackable F) → Type 0 = λ r. wrong shown r.1 ≡ wrong shown current in
      elim (activate_cases s (λ t. 0) [] starttime time_diff i x last current) [
        | inl e ↦ subst P (sym e) (wrong-update_at (λ t. new named.1) i shown current (omega arith))
        | inr (inl e) ↦
            subst P (sym e)
              (wrong-update_at (λ t. new named.1) i shown found.0 (omega arith) ∙ same)
        | inr (inr (old, e)) ↦ subst P (sym e) (
            wrong-update_at (λ t. new (record x { id = found.2 })) i shown found.0 (omega arith)
            ∙ same)
      ]

  pub transfer_wrong :
      (rounds now starttime time_diff i last : ℕ) (current : List (Trackable F)) (shown : List Bool)
      → length shown ≡ i
      → wrong shown current ≡ 0
      → let r = transfer_active s rounds now starttime time_diff i (last, current, shown) in
        wrong r.2 r.1 ≡ 0
  unfolding transfer_active
  transfer_wrong zero now starttime time_diff i last current shown h right = right
  transfer_wrong (suc rounds) now starttime time_diff i last current shown h right =
      elim (Option-cases (get_elem? current i)) [
        | inl end ↦ rw (transfer_active, end) right
        | inr (x, there) ↦
            let P : ℕ × List (Trackable F) × List Bool → Type 0 = λ r. wrong r.2 r.1 ≡ 0 in
            elim (round_lem s (λ t. 0) [] rounds now starttime time_diff i last current shown x
              there) [
                | inl e ↦ subst P (sym e) (
                    transfer_wrong rounds now starttime time_diff i last (erase_at i current) shown
                      h (wrong-erase_at i shown current (omega arith) ∙ right))
                | inr (next, y, here, how, e) ↦
                    let Q : ℕ × List (Trackable F) → Type 0 =
                      λ n. wrong shown n.1 ≡ wrong shown current in
                    let kept : Q next = elim how [
                      | inl same ↦ subst Q (sym same) refl
                      | inr (new, off) ↦
                          subst Q (sym new)
                            (wrong-activate starttime time_diff i last x shown current h)
                    ] in
                    let z = (show s now y).0 in
                    let b = (show s now y).1 in
                    let current' = update_at i (λ t. z) next.1 in
                    let here' : (get_elem? current' i ≡ some z) ⊎ (get_elem? current' i ≡ none) =
                      elim here [
                        | inl at_ ↦ inl (get_elem?-update_at (λ t. z) i next.1 y at_)
                        | inr out ↦ inr (
                            subst (λ l. get_elem? l i ≡ none)
                              (sym (update_at_out s (λ t. 0) [] (λ t. z) i next.1 out)) out)
                      ] in
                    let more = wrong_more b i shown current' z h here' (show_on now y) in
                    let same = wrong-update_at (λ t. z) i shown next.1 (omega arith) in
                    subst P (sym e) (
                      transfer_wrong rounds now starttime time_diff (i + 1) next.0 current'
                        (shown ++ b ∷ []) (length-append shown (b ∷ []) ∙ ap (λ n. n + 1) h)
                        (more ∙ same ∙ kept ∙ right))
              ]
      ]

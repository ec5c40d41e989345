-- ===== src/Track/Ids.antt =====
-- In how many places an identifier stands: as the id of a trackable, or among its latent ids.
use lidar.Prelude.{
  ℕ, zero, suc, ◌+◌, ◌≤◌, Bool, true, false, ◌||◌, List, [], ◌∷◌, ◌++◌, some, ◌≡◌, refl, inl, inr,
  ◌⊎◌, arith, ltb, ◌==◌, if◌then◌else◌, Bool-cases, Option-cases, map, text, find, count, emplace,
  get_elem?, same_bytes, same_bytes→eq, same_bytes_refl, find_other, find-erase, find_not_erased,
}
use lidar.KeyValue.Map.{Text}
use lidar.Track.{
  LatentIds, put, remove_id, oldest_of, get_oldest, add_time, cleanup_ids, Trackable, Space,
  cleanup_one,
}
use lidar.Track.Merge.{update_at}

abbrev pub one_if : Bool → ℕ
one_if false = 0
one_if true = 1

module _ {ℓ} {A : Type ℓ} where
  -- The sum over a list.
  abbrev pub total : (A → ℕ) → List A → ℕ
  total f [] = 0
  total f (x ∷ xs) = f x + total f xs

  pub total-append : (f : A → ℕ) (xs ys : List A) → total f (xs ++ ys) ≡ total f xs + total f ys
  total-append f [] ys = omega arith
  total-append f (x ∷ xs) ys = omega (arith, total-append f xs ys)

  -- A change of one element changes the sum by as much.
  pub total-update_at :
      (f : A → ℕ) (g : A → A) (i : ℕ) (xs : List A) (x : A)
      → get_elem? xs i ≡ some x
      → total f (update_at i g xs) + f x ≡ total f xs + f (g x)
  unfolding update_at
  total-update_at f g i [] x h = ground (arith, h)
  total-update_at f g zero (y ∷ xs) x h = ground (arith, h)
  total-update_at f g (suc i) (y ∷ xs) x h = let rest = total-update_at f g i xs x h in omega arith

  -- A change that makes no element heavier makes the sum no greater.
  pub total-map :
      (f : A → ℕ) (g : A → A) (xs : List A)
      → ((x : A) → f (g x) ≤ f x)
      → total f (map g xs) ≤ total f xs
  total-map f g [] h = omega arith
  total-map f g (x ∷ xs) h = let here = h x in let rest = total-map f g xs h in omega arith

  pub total-update_at_le :
      (f : A → ℕ) (g : A → A) (i : ℕ) (xs : List A)
      → ((x : A) → f (g x) ≤ f x)
      → total f (update_at i g xs) ≤ total f xs
  unfolding update_at
  total-update_at_le f g i [] h = omega arith
  total-update_at_le f g zero (y ∷ xs) h = let here = h y in omega arith
  total-update_at_le f g (suc i) (y ∷ xs) h =
      let rest = total-update_at_le f g i xs h in omega arith

  pub total-update_at_plus :
      (f : A → ℕ) (g : A → A) (c i : ℕ) (xs : List A)
      → ((x : A) → f (g x) ≤ f x + c)
      → total f (update_at i g xs) ≤ total f xs + c
  unfolding update_at
  total-update_at_plus f g c i [] h = omega arith
  total-update_at_plus f g c zero (y ∷ xs) h = let here = h y in omega arith
  total-update_at_plus f g c (suc i) (y ∷ xs) h =
      let rest = total-update_at_plus f g c i xs h in omega arith

  pub get_elem?-update_at :
      (g : A → A) (i : ℕ) (xs : List A) (x : A)
      → get_elem? xs i ≡ some x
      → get_elem? (update_at i g xs) i ≡ some (g x)
  unfolding update_at
  get_elem?-update_at g i [] x h = ground (arith, h)
  get_elem?-update_at g zero (y ∷ xs) x h = ground (arith, h)
  get_elem?-update_at g (suc i) (y ∷ xs) x h = get_elem?-update_at g i xs x h

  -- A change that makes no element lighter keeps the element at an index at least as heavy.
  pub update_at_grows :
      (f : A → ℕ) (g : A → A) (j i : ℕ) (xs : List A) (x : A)
      → ((y : A) → f y ≤ f (g y))
      → get_elem? xs i ≡ some x
      → (y : A) × (get_elem? (update_at j g xs) i ≡ some y) × (f x ≤ f y)
  unfolding update_at
  update_at_grows f g j i [] x h e = ground (arith, e)
  update_at_grows f g zero zero (y ∷ xs) x h e =
      let here = h y in (g y, refl, ground (arith, e, here))
  update_at_grows f g zero (suc i) (y ∷ xs) x h e = (x, e, omega arith)
  update_at_grows f g (suc j) zero (y ∷ xs) x h e = (x, e, omega arith)
  update_at_grows f g (suc j) (suc i) (y ∷ xs) x h e = update_at_grows f g j i xs x h e

module _ (k : Text) where
  count-put :
      (id : Text) (time : ℕ) (ids : LatentIds)
      → one_if (count text k (put id time ids))
        ≤ one_if (count text k ids) + one_if (same_bytes k id)
  unfolding put emplace count
  count-put id time ids = elim (Option-cases (find text id ids)) [
    | inl out ↦ elim (Bool-cases (same_bytes k id)) [
      | inl y ↦ ground (arith, out, y)
      | inr n ↦ ground (arith, out, n, find_other text k id time ids n)
    ]
    | inr (t, there) ↦ ground (arith, there)
  ]

  count-put_grows :
      (id : Text) (time : ℕ) (ids : LatentIds)
      → one_if (count text k ids) ≤ one_if (count text k (put id time ids))
  unfolding put emplace count
  count-put_grows id time ids = elim (Option-cases (find text id ids)) [
    | inl out ↦ elim (Bool-cases (same_bytes k id)) [
      | inl y ↦ let e = same_bytes→eq k id y in ground (arith, out, y, e)
      | inr n ↦ ground (arith, out, n, find_other text k id time ids n)
    ]
    | inr (t, there) ↦ ground (arith, there)
  ]

  count-remove_id :
      (id : Text) (ids : LatentIds)
      → count text id ids ≡ true
      → one_if (count text k (remove_id id ids)) + one_if (same_bytes k id)
        ≤ one_if (count text k ids)
  unfolding remove_id count
  count-remove_id id ids h = elim (Bool-cases (same_bytes k id)) [
    | inl y ↦ let e = same_bytes→eq k id y in ground (arith, y, e, h, find-erase text id ids)
    | inr n ↦ ground (arith, n, find_not_erased text k id ids n)
  ]

  count-add_time :
      (time : ℕ) (ids : LatentIds) → count text k (add_time time ids) ≡ count text k ids
  unfolding add_time count find
  count-add_time time [] = refl
  count-add_time time ((id, t) ∷ ids) = ground (arith, count-add_time time ids)

  count-cleanup_ids :
      (older timestamp : ℕ) (ids : LatentIds)
      → one_if (count text k (cleanup_ids older timestamp ids)) ≤ one_if (count text k ids)
  unfolding cleanup_ids count find
  count-cleanup_ids older timestamp [] = omega arith
  count-cleanup_ids older timestamp ((id, t) ∷ ids) =
      ground (arith, count-cleanup_ids older timestamp ids)

module _ {F : Type 0} (k : Text) where
  -- How often the identifier stands in a trackable, and so in one that is not about to be erased.
  unfoldable pub held : Trackable F → ℕ
  held t = one_if (same_bytes k t.id) + one_if (count text k t.latent_ids)

  unfoldable pub held_live : Trackable F → ℕ
  held_live t = if t.erasable then 0 else held t

  pub held-cleanup_one :
      {D : Type 0} (s : Space F D) (timestamp time_diff : ℕ) (t : Trackable F)
      → held (cleanup_one s timestamp time_diff t) ≤ held t
  unfolding held cleanup_one
  held-cleanup_one s timestamp time_diff t = ground (
    arith,
    count-cleanup_ids k s.latent_life_time timestamp (add_time time_diff t.latent_ids),
    count-cleanup_ids k s.latent_life_time timestamp t.latent_ids,
    count-add_time k time_diff t.latent_ids,
  )

  -- A host that keeps an id.
  pub held_live-put :
      (id : Text) (time : ℕ) (t : Trackable F)
      → held_live (record t { latent_ids = put id time t.latent_ids })
        ≤ held_live t + one_if (same_bytes k id)
  unfolding held_live held
  held_live-put id time t = ground (arith, count-put k id time t.latent_ids)

  pub held_live-put_grows :
      (id : Text) (time : ℕ) (t : Trackable F)
      → held_live t ≤ held_live (record t { latent_ids = put id time t.latent_ids })
  unfolding held_live held
  held_live-put_grows id time t = ground (arith, count-put_grows k id time t.latent_ids)

  pub held-remove_id :
      (id : Text) (t : Trackable F)
      → count text id t.latent_ids ≡ true
      → held (record t { latent_ids = remove_id id t.latent_ids }) + one_if (same_bytes k id)
        ≤ held t
  unfolding held
  held-remove_id id t h = ground (arith, count-remove_id k id t.latent_ids h)

-- What `get` finds is there.
count-oldest_of :
    (all ids : LatentIds) (best : Text × ℕ)
    → ((id : Text) → count text id ids ≡ true → count text id all ≡ true)
    → (best.1 ≡ 0) ⊎ (count text best.0 all ≡ true)
    → ((oldest_of ids best).1 ≡ 0) ⊎ (count text (oldest_of ids best).0 all ≡ true)
unfolding oldest_of count find
count-oldest_of all [] best inside b = b
count-oldest_of all ((id, t) ∷ ids) best inside b =
    let here : count text id all ≡ true = inside id (ground (arith, same_bytes_refl id)) in
    let below : (j : Text) → count text j ids ≡ true → count text j all ≡ true =
      λ j h. inside j (ground (arith, h)) in
    let next : Text × ℕ = if (best.1 == 0) || ltb t best.1 then (id, t) else best in
    let valid : (next.1 ≡ 0) ⊎ (count text next.0 all ≡ true) =
      elim (Bool-cases ((best.1 == 0) || ltb t best.1)) [
        | inl y ↦ rw (y) (inr here)
        | inr n ↦ rw (n) b
      ] in
    count-oldest_of all ids next below valid

-- `get` gives an id that is there.
pub count-get_oldest :
    (ids : LatentIds) (id : Text) (t : ℕ) → get_oldest ids ≡ some (id, t) → count text id ids ≡ true
unfolding get_oldest
count-get_oldest ids id t h = elim (count-oldest_of ids ids ([], 0) (λ j e. e) (inl refl)) [
  | inl none_ ↦ ground (arith, none_, h)
  | inr there ↦ ground (arith, there, h)
]

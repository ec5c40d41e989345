-- ===== src/Track/Forest.antt =====
-- The chains of `mixedIndex` of `mergeSubStagesInSingleStage`.
use lidar.Prelude.{
  ℕ, zero, suc, ◌+◌, ◌-◌, ◌<◌, ◌≤◌, true, false, List, [], ◌∷◌, Option, none, some, ◌≡◌, refl,
  subst, ◌∙◌, inl, inr, arith, if◌then◌else◌, ◌==◌, Bool-cases, Option-cases, length, set,
}
use lidar.Track.{Space}
use lidar.Track.Slots.{slot-set}
use lidar.Track.Matching.{slot, is_free}
use lidar.Track.Merge.{find_root}

-- How many trackables are mixed into another one.
abbrev pub assigned : List (Option ℕ) → ℕ
assigned [] = 0
assigned (none ∷ mixed) = assigned mixed
assigned (some j ∷ mixed) = assigned mixed + 1

assigned_le : (mixed : List (Option ℕ)) → assigned mixed ≤ length mixed
assigned_le [] = omega arith
assigned_le (none ∷ mixed) = let rest = assigned_le mixed in omega arith
assigned_le (some j ∷ mixed) = let rest = assigned_le mixed in omega arith

assigned-set :
    (mixed : List (Option ℕ)) (i j : ℕ)
    → i < length mixed
    → is_free (slot mixed i) ≡ true
    → assigned (set mixed i (some j)) ≡ assigned mixed + 1
assigned-set [] i j h free_ = absurd (omega arith)
assigned-set (none ∷ mixed) zero j h free_ = refl
assigned-set (some v ∷ mixed) zero j h free_ = ground (arith, free_)
assigned-set (none ∷ mixed) (suc i) j h free_ = assigned-set mixed i j (omega arith) free_
assigned-set (some v ∷ mixed) (suc i) j h free_ =
    let rest = assigned-set mixed i j (omega arith) free_ in omega arith

module _ {F D : Type 0} (s : Space F D) (timestamp : ℕ) where
  -- The end of a chain is mixed into nothing.
  find_root_ends :
      (n : ℕ) (mixed : List (Option ℕ)) (i r : ℕ)
      → find_root s timestamp n mixed i ≡ some r
      → slot mixed r ≡ none
  unfolding find_root
  find_root_ends zero mixed i r e = ground (arith, e)
  find_root_ends (suc n) mixed i r e = elim (Option-cases (slot mixed i)) [
    | inl end ↦ ground (arith, e, end)
    | inr (j, next) ↦ find_root_ends n mixed j r (ground (arith, e, next))
  ]

  find_root_suc :
      (n : ℕ) (mixed : List (Option ℕ)) (i r : ℕ)
      → find_root s timestamp n mixed i ≡ some r
      → find_root s timestamp (n + 1) mixed i ≡ some r
  unfolding find_root
  find_root_suc zero mixed i r e = ground (arith, e)
  find_root_suc (suc n) mixed i r e = elim (Option-cases (slot mixed i)) [
    | inl end ↦ ground (arith, e, end)
    | inr (j, next) ↦
        let rest = find_root_suc n mixed j r (ground (arith, e, next)) in ground (arith, next, rest)
  ]

  find_root_more :
      (d n m : ℕ) (mixed : List (Option ℕ)) (i r : ℕ)
      → m ≡ d + n
      → find_root s timestamp n mixed i ≡ some r
      → find_root s timestamp m mixed i ≡ some r
  find_root_more zero n m mixed i r h e =
      subst (λ x. find_root s timestamp x mixed i ≡ some r) (omega arith) e
  find_root_more (suc d) n m mixed i r h e =
      subst (λ x. find_root s timestamp x mixed i ≡ some r) (omega arith)
        (find_root_suc (d + n) mixed i r (find_root_more d n (d + n) mixed i r refl e))

  -- A chain after an end of it has been mixed into another end.
  find_root-set :
      (n : ℕ) (mixed : List (Option ℕ)) (from_ root i r : ℕ)
      → from_ < length mixed
      → slot mixed from_ ≡ none
      → slot mixed root ≡ none
      → (root == from_) ≡ false
      → find_root s timestamp n mixed i ≡ some r
      → find_root s timestamp (n + 1) (set mixed from_ (some root)) i
        ≡ some (if r == from_ then root else r)
  unfolding find_root
  find_root-set zero mixed from_ root i r short one two other e = ground (arith, e)
  find_root-set (suc n) mixed from_ root i r short one two other e =
      let m = set mixed from_ (some root) in
      let at_root : slot m root ≡ none =
        slot-set mixed from_ (some root) root short ∙ rw (other) two in
      elim (Option-cases (slot mixed i)) [
        | inl end ↦
            let same : i ≡ r = ground (arith, e, end) in
            elim (Bool-cases (i == from_)) [
              | inl y ↦
                  let here : slot m i ≡ some root =
                    slot-set mixed from_ (some root) i short ∙ rw (y) refl in
                  let there : (r == from_) ≡ true = ground (arith, same, y) in
                  ground (arith, here, at_root, there)
              | inr n ↦
                  let here : slot m i ≡ none =
                    slot-set mixed from_ (some root) i short ∙ rw (n) end in
                  let there : (r == from_) ≡ false = ground (arith, same, n) in
                  ground (arith, here, there, same)
            ]
        | inr (j, next) ↦
            let away : (i == from_) ≡ false = elim (Bool-cases (i == from_)) [
              | inr n ↦ n
              | inl y ↦ let same : i ≡ from_ = ground (arith, y) in ground (arith, one, next, same)
            ] in
            let here : slot m i ≡ some j =
              slot-set mixed from_ (some root) i short ∙ rw (away) next in
            let rest =
              find_root-set n mixed from_ root j r short one two other (ground (arith, e, next)) in
            ground (arith, here, rest)
      ]

  -- Every chain has an end, after as many steps as there are trackables that are mixed.
  abbrev pub HaveEnds : List (Option ℕ) → Type 0
  HaveEnds mixed = (i : ℕ) → (r : ℕ) × (find_root s timestamp (assigned mixed + 1) mixed i ≡ some r)

  -- The search for the end of a chain finds it.
  pub find_root-HaveEnds :
      (mixed : List (Option ℕ)) (i : ℕ)
      → HaveEnds mixed
      → (r : ℕ) × (find_root s timestamp (length mixed + 1) mixed i ≡ some r)
  find_root-HaveEnds mixed i ends =
      let (r, found) = ends i in
      let few = assigned_le mixed in
      (
        r,
        find_root_more (length mixed - assigned mixed) (assigned mixed + 1) (length mixed + 1) mixed
            i r (omega arith) found,
      )

  pub set-HaveEnds :
      (mixed : List (Option ℕ)) (from_ root into n : ℕ)
      → HaveEnds mixed
      → from_ < length mixed
      → is_free (slot mixed from_) ≡ true
      → (root == from_) ≡ false
      → find_root s timestamp n mixed into ≡ some root
      → HaveEnds (set mixed from_ (some root))
  set-HaveEnds mixed from_ root into n ends short free_ other found i =
      let (r, e) = ends i in
      let one : slot mixed from_ ≡ none = ground (arith, free_) in
      let two = find_root_ends n mixed into root found in
      let next = find_root-set (assigned mixed + 1) mixed from_ root i r short one two other e in
      let more = assigned-set mixed from_ root short free_ in
      let count : assigned mixed + 1 + 1 ≡ assigned (set mixed from_ (some root)) + 1 =
        omega arith in
      (
        (if r == from_ then root else r),
        subst
            (λ x.
              find_root s timestamp x (set mixed from_ (some root)) i
              ≡ some (if r == from_ then root else r))
            count next,
      )

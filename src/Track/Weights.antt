-- ===== src/Track/Weights.antt =====
-- A weight that depends on the identifiers of a trackable only, through the merging and the motion.
use lidar.Prelude.{
  ℕ, suc, ◌+◌, ◌≤◌, Bool, true, false, List, [], ◌∷◌, Option, none, some, ◌≡◌, refl, subst, inl,
  inr, arith, if◌then◌else◌, Bool-cases, Option-cases, get_elem?, length, map, replicate,
}
use lidar.Track.{Trackable, TrackInfo, Space, init}
use lidar.Track.Matching.{slot, down, pairs_of}
use lidar.Track.Merge.{
  update_at, Merging, add_new, add_stage, mix_merged, merge_pair, merge_pairs, add_unused,
  merge_stage, add_sub_stages, merge_sub_stages, pairs_below, unite_pair, unite_pairs, keep_roots,
  merge_in_single_stage,
}
use lidar.Observer.Objects.{minus64}
use lidar.Track.SingleStage.{unite_pair_cases, mixed_with}
use lidar.Track.Steps.{is_assigned, mix_assigned, move_all}
use lidar.Track.Unite.{MultiStage, merged_of}
use lidar.Track.Ids.{total, total-append, total-update_at_le}

-- Weights that see the ids only, and whether a trackable is about to be erased.
abbrev pub IsOfIds : {F : Type 0} → (Trackable F → ℕ) → Type 0
IsOfIds {F} f = (t u : Trackable F) → t.id ≡ u.id → t.latent_ids ≡ u.latent_ids → f t ≡ f u

abbrev pub IsOfFlags : {F : Type 0} → (Trackable F → ℕ) → Type 0
IsOfFlags {F} f =
    (t u : Trackable F)
    → t.id ≡ u.id
    → t.latent_ids ≡ u.latent_ids
    → t.erasable ≡ u.erasable
    → t.is_activated ≡ u.is_activated
    → f t ≡ f u

module _ {F : Type 0} where
  pub total-one : (ts : List (Trackable F)) → total (λ t. 1) ts ≡ length ts
  total-one [] = refl
  total-one (t ∷ ts) = let rest = total-one ts in omega arith

  pub total-map_same :
      (f : Trackable F → ℕ) (g : Trackable F → Trackable F) (ts : List (Trackable F))
      → ((t : Trackable F) → f (g t) ≡ f t)
      → total f (map g ts) ≡ total f ts
  total-map_same f g [] h = refl
  total-map_same f g (t ∷ ts) h = let one = h t in let rest = total-map_same f g ts h in omega arith

module _ {F D : Type 0} (s : Space F D) (f : Trackable F → ℕ) (flags : IsOfFlags f) where
  pub total-mix_assigned :
      (now : ℕ) (current_map : List (Option ℕ)) (merged : List (Trackable F)) (i : ℕ)
      (ts : List (Trackable F))
      → total f (mix_assigned s now current_map merged i ts) ≡ total f ts
  unfolding mix_assigned
  total-mix_assigned now current_map merged i [] = refl
  total-mix_assigned now current_map merged i (t ∷ ts) =
      let rest = total-mix_assigned now current_map merged (suc i) ts in
      let source : Option (Trackable F) = elim (slot current_map i) [
        | none ↦ none
        | some j ↦ get_elem? merged j
      ] in
      elim (Option-cases source) [
        | inl out ↦ rw (mix_assigned, out) (omega arith)
        | inr (m, there) ↦
            let one =
              flags (record t { place = s.mix_tracked t.place m.place; last_time = now }) t refl
                refl refl refl in
            rw (mix_assigned, there) (omega arith)
      ]

  pub total-move_all :
      (now time_diff : ℕ) (current_map : List (Option ℕ)) (before : List (Trackable F)) (i : ℕ)
      (ts : List (Trackable F))
      → total f (move_all s now time_diff current_map before i ts) ≡ total f ts
  unfolding move_all
  total-move_all now time_diff current_map before i [] = refl
  total-move_all now time_diff current_map before i (t ∷ ts) =
      let rest = total-move_all now time_diff current_map before (suc i) ts in
      let last = elim (get_elem? before i) as (λ x. F) [ none ↦ t.place | some b ↦ b.place ] in
      let new =
        s.move time_diff (is_assigned current_map i) (minus64 now t.last_time) last t.place in
      let one = flags (record t { place = new }) t refl refl refl refl in omega arith

module _ {F D : Type 0} (s : Space F D) (timestamp : ℕ) (f : Trackable F → ℕ)
    (ids : IsOfIds f) where
  init_same : (t : Trackable F) → f (init s timestamp t) ≡ f t
  unfolding init
  init_same t = ids (init s timestamp t) t refl refl

  total-add_new :
      (t : Trackable F) (ts : List (Trackable F))
      → total f (add_new s timestamp t ts) ≡ f t + total f ts
  unfolding add_new
  total-add_new t ts =
      let all = total-append f ts (init s timestamp t ∷ []) in let one = init_same t in omega arith

  total-add_stage :
      (stage merged : List (Trackable F))
      → total f (add_stage s timestamp stage merged) ≡ total f stage + total f merged
  unfolding add_stage
  total-add_stage [] merged = omega arith
  total-add_stage (t ∷ ts) merged =
      let rest = total-add_stage ts merged in
      let here = total-add_new t (add_stage s timestamp ts merged) in omega arith

  total-merge_pair :
      (stage : List (Trackable F)) (ti : TrackInfo D) (m : Merging F)
      → total f (merge_pair s timestamp stage ti m).merged ≤ total f m.merged
  unfolding merge_pair mix_merged
  total-merge_pair stage ti m = elim (Option-cases (get_elem? stage ti.current_index)) [
    | inl out ↦ ground (arith, out)
    | inr (t, there) ↦
        let one =
          total-update_at_le f (mix_merged s timestamp t) ti.merged_index m.merged
            (λ u. let one = ids (mix_merged s timestamp t u) u refl refl in omega arith) in
        ground (arith, there, one)
  ]

  total-merge_pairs :
      (stage : List (Trackable F)) (tis : List (TrackInfo D)) (m : Merging F)
      → total f (merge_pairs s timestamp stage tis m).merged ≤ total f m.merged
  unfolding merge_pairs
  total-merge_pairs stage [] m = omega arith
  total-merge_pairs stage (ti ∷ tis) m =
      let one = total-merge_pair stage ti m in
      let rest = total-merge_pairs stage tis (merge_pair s timestamp stage ti m) in omega arith

  total-add_unused :
      (used : List Bool) (i : ℕ) (ts merged : List (Trackable F))
      → total f (add_unused s timestamp used i ts merged) ≤ total f ts + total f merged
  unfolding add_unused
  total-add_unused used i [] merged = omega arith
  total-add_unused used i (t ∷ ts) merged =
      let rest = total-add_unused used (suc i) ts merged in
      let here = total-add_new t (add_unused s timestamp used (suc i) ts merged) in
      ground (arith, rest, here)

  total-merge_stage :
      (stage merged : List (Trackable F))
      → total f (merge_stage s timestamp stage merged) ≤ total f stage + total f merged
  unfolding merge_stage
  total-merge_stage stage merged =
      let pairs = s.sort (pairs_of s.distance_to s.can_unite (down 0 stage) (down 0 merged)) in
      let start : Merging F = record {
        merged = merged;
        merged_used = replicate (length merged + 1) false;
        sub_stage_used = replicate (length stage + 1) false;
      } in
      let done = merge_pairs s timestamp stage pairs start in
      let one = total-merge_pairs stage pairs start in
      let two = total-add_unused done.sub_stage_used 0 stage done.merged in omega arith

  total-merge_sub_stages :
      (stages : List (List (Trackable F)))
      → total f (merge_sub_stages s timestamp stages []) ≤ total (total f) stages
  unfolding merge_sub_stages
  total-merge_sub_stages [] = omega arith
  total-merge_sub_stages (stage ∷ stages) =
      let rest = total-merge_sub_stages stages in
      let one = total-merge_stage stage (merge_sub_stages s timestamp stages []) in omega arith

  total-add_sub_stages :
      (stages : List (List (Trackable F)))
      → total f (add_sub_stages s timestamp stages []) ≤ total (total f) stages
  unfolding add_sub_stages
  total-add_sub_stages [] = omega arith
  total-add_sub_stages (stage ∷ stages) =
      let rest = total-add_sub_stages stages in
      let one = total-add_stage stage (add_sub_stages s timestamp stages []) in omega arith

  total-unite_pair :
      (ti : TrackInfo D) (merged : List (Trackable F)) (mixed : List (Option ℕ))
      (r : List (Trackable F) × List (Option ℕ))
      → unite_pair s timestamp ti (merged, mixed) ≡ some r
      → total f r.0 ≤ total f merged
  unfolding unite_pair
  total-unite_pair ti merged mixed r e = elim (unite_pair_cases s timestamp ti merged mixed) [
    | inl same ↦ ground (arith, e, same)
    | inr (inl (from_, into, root, t, there, free_, other, found, next)) ↦
        let one =
          total-update_at_le f (mixed_with s timestamp t) root merged
            (λ u. let same = ids (mixed_with s timestamp t u) u refl refl in omega arith) in
        let first : update_at root (mixed_with s timestamp t) merged ≡ r.0 =
          ground (arith, next, e) in
        subst (λ x. total f x ≤ total f merged) first one
    | inr (inr (into, endless, lost)) ↦ ground (arith, e, lost)
  ]

  total-unite_pairs :
      (tis : List (TrackInfo D)) (merged : List (Trackable F)) (mixed : List (Option ℕ))
      (r : List (Trackable F) × List (Option ℕ))
      → unite_pairs s timestamp tis (merged, mixed) ≡ some r
      → total f r.0 ≤ total f merged
  unfolding unite_pairs
  total-unite_pairs [] merged mixed r e = ground (arith, e)
  total-unite_pairs (ti ∷ tis) merged mixed r e =
      elim (Option-cases (unite_pair s timestamp ti (merged, mixed))) [
        | inl out ↦ ground (arith, e, out)
        | inr (next, there) ↦
            let one = total-unite_pair ti merged mixed next there in
            let rest = total-unite_pairs tis next.0 next.1 r (ground (arith, e, there)) in
            omega arith
      ]

  total-keep_roots :
      (mixed : List (Option ℕ)) (i : ℕ) (ts : List (Trackable F))
      → total f (keep_roots s timestamp mixed i ts) ≤ total f ts
  unfolding keep_roots
  total-keep_roots mixed i [] = omega arith
  total-keep_roots mixed i (t ∷ ts) =
      let rest = total-keep_roots mixed (suc i) ts in ground (arith, rest)

  total-merge_in_single_stage :
      (stages : List (List (Trackable F))) (merged : List (Trackable F))
      → merge_in_single_stage s timestamp stages ≡ some merged
      → total f merged ≤ total (total f) stages
  unfolding merge_in_single_stage
  total-merge_in_single_stage stages merged e =
      let all = add_sub_stages s timestamp stages [] in
      let pairs = s.sort (pairs_below s timestamp (down 0 all)) in
      let first = total-add_sub_stages stages in
      let united = unite_pairs s timestamp pairs (all, replicate (length all) none) in
      elim (Option-cases united) [
        | inl out ↦ ground (arith, e, out)
        | inr (next, there) ↦
            let two = total-unite_pairs pairs all (replicate (length all) none) next there in
            let three = total-keep_roots next.1 0 next.0 in
            let same : keep_roots s timestamp next.1 0 next.0 ≡ merged = ground (arith, e, there) in
            subst (λ x. total f x ≤ total (total f) stages) same (omega arith)
      ]

-- The merged trackables weigh no more than those of the stages.
pub total-merged_of :
    {F D : Type 0} (s : Space F D) (f : Trackable F → ℕ)
    → IsOfIds f
    → (m : MultiStage F) (merged : List (Trackable F)) → merged_of s m ≡ some merged
    → total f merged ≤ total (total f) m.sub_stages
unfolding merged_of
total-merged_of {F = F} s f ids m merged e =
    let one = total-merge_sub_stages s m.timestamp f ids m.sub_stages in
    let empty : List (Trackable F) = [] in
    let started : Option (List (Trackable F)) =
      if s.unite_in_single_stage
      then merge_in_single_stage s m.timestamp m.sub_stages
      else some (merge_sub_stages s m.timestamp m.sub_stages []) in
    let go : started ≡ some merged → total f merged ≤ total (total f) m.sub_stages = λ h.
      elim (Bool-cases s.unite_in_single_stage) [
        | inl single ↦
            total-merge_in_single_stage s m.timestamp f ids m.sub_stages merged
              (ground (arith, h, single))
        | inr many ↦
            let same : merge_sub_stages s m.timestamp m.sub_stages [] ≡ merged =
              ground (arith, h, many) in
            subst (λ x. total f x ≤ total (total f) m.sub_stages) same one
      ] in
    elim (Option-cases m.is_started) [
      | inl new ↦ go (ground (arith, e, new))
      | inr (true, there) ↦ go (ground (arith, e, there))
      | inr (false, there) ↦
          let same : empty ≡ merged = ground (arith, e, there) in
          subst (λ x. total f x ≤ total (total f) m.sub_stages) same (omega arith)
    ]

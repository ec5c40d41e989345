-- ===== src/Observer/Rects.antt =====
-- `ObsvRects`: the regions of an observer, each for itself, or united under one name.
use lidar.Prelude.{
  ℕ, ◌+◌, Bool, true, false, not, ◌&&◌, ◌||◌, List, [], ◌∷◌, none, some, ◌==◌, if◌then◌else◌,
  length, get_elem?,
}
use lidar.Observer.Objects.{Geometry, ObsvObjects, start_objects, reset_objects}

-- `ObsvRect`, but for its name and its shape
pub record ObsvRect (F : Type 0) : Type 0 where
  pub invert : Bool
  pub edge : ℕ
  pub objects : ObsvObjects F

-- `ObsvRects`; `united` tells whether `default_rect` has a name.
pub record ObsvRects (F : Type 0) : Type 0 where
  pub rects : List (ObsvRect F)
  pub default_rect : ObsvRect F
  pub united : Bool

module _ {F : Type 0} where
  -- The regions that `rect( i )` gives for each `i` below `numRects()`.
  unfoldable pub each_rect : ObsvRects F → List (ObsvRect F)
  each_rect r = if not r.united && not (length r.rects == 0) then r.rects else r.default_rect ∷ []

  unfoldable pub set_rects : List (ObsvRect F) → ObsvRects F → ObsvRects F
  set_rects regions r =
      if not r.united && not (length r.rects == 0) then record r { rects = regions } else record r {
        default_rect = elim regions [ [] ↦ r.default_rect | region ∷ others ↦ region ];
      }

  -- `(*this)[i].invert`
  unfoldable pub invert_at : ℕ → List (ObsvRect F) → Bool
  invert_at i rects = elim (get_elem? rects i) [ none ↦ false | some r ↦ r.invert ]

  -- The loop of `contains` over united regions, from the index `i` on.
  unfoldable pub contains_any : Geometry F → ℕ → List (ObsvRect F) → F → Bool
  contains_any g i [] place = false
  contains_any g i (r ∷ rs) place =
      let rest = contains_any g (i + 1) rs place in if g.inside i place then not r.invert else rest

  -- `ObsvRects::contains`
  unfoldable pub contains : Geometry F → ObsvRects F → ℕ → F → Bool
  contains g r i place =
      if length r.rects == 0
      then true
      else if r.united
      then contains_any g 0 r.rects place
      else if invert_at i r.rects
      then not (g.inside i place)
      else g.inside i place

  -- The region's own edge, of `rect( i )`
  unfoldable pub edge_at : ℕ → ObsvRects F → ℕ
  edge_at i r = elim (get_elem? (each_rect r) i) [ none ↦ 0 | some q ↦ q.edge ]

  -- `ObsvRects::edgeCrossed`, for an object that leaves or enters
  unfoldable pub edge_crossed : Geometry F → ObsvRects F → ℕ → Bool → F → ℕ
  edge_crossed g r i leaves place =
      if r.united && not (length r.rects == 1)
      then 0
      else let edge = g.crossed i leaves place in
        if edge_at i r == 0 then edge else if edge == edge_at i r then edge else 0

  -- `ObsvRects::countEdge`
  unfoldable pub count_edge : ObsvRects F → ℕ → ℕ → ℕ
  count_edge r i edge =
      if edge == 0 || (r.united && not (length r.rects == 1))
      then 0
      else if edge == edge_at i r
      then 1
      else 0

  unfoldable pub each_objects :
      (ObsvObjects F → ObsvObjects F) → List (ObsvRect F) → List (ObsvRect F)
  each_objects f [] = []
  each_objects f (r ∷ rs) = record r { objects = f r.objects } ∷ each_objects f rs

  -- `ObsvRects::start` and `ObsvRects::reset`
  unfoldable pub start_rects : ObsvRects F → ObsvRects F
  start_rects r = set_rects (each_objects start_objects (each_rect r)) r

  unfoldable pub reset_rects : ObsvRects F → ObsvRects F
  reset_rects r = set_rects (each_objects reset_objects (each_rect r)) r

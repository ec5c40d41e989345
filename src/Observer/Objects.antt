-- ===== src/Observer/Objects.antt =====
-- `ObsvObject` and `ObsvObjects`. All that is computed in floating point is a parameter: the type `F` of
-- an object's coordinates, and the functions of `Geometry` on it.
use lidar.Prelude.{ℕ, ◌+◌, ◌-◌, ◌/◌, ◌%◌, ◌^◌, Bool, List, [], Option, none, ◌==◌}

-- `ObsvStatus`
pub data Status : Type 0 where
  enter leave move invalid : Status

-- `ObsvObject`; `place` stands for `x`, `y`, `z`, `lx`, `ly`, `lz`, `x0`, `y0`, `z0`, `d`, `size` and `size0`.
pub record ObsvObject (F : Type 0) : Type 0 where
  pub id : ℕ
  pub timestamp : ℕ
  pub timestamp_enter : ℕ
  pub timestamp_touched : ℕ
  pub status : Status
  pub edge : ℕ
  pub flags : ℕ
  pub place : F

-- The functions on coordinates: `ObsvRect::contains` and `ObsvRect::edgeCrossed` of the region of an
-- index, `track` without and with smoothing, `moveDone`, `update`, `d = distanceMoved()`, and the tests
-- on differences of times against `aliveTimeout` and `maxFPS`.
pub record Geometry (F : Type 0) : Type 0 where
  pub inside : ℕ → F → Bool
  pub crossed : ℕ → Bool → F → ℕ
  pub follow : F → F → F
  pub smooth : F → F → F
  pub move_done : F → F
  pub update : F → F
  pub measure : F → F
  pub alive_due : ℕ → Bool
  pub too_soon : ℕ → Bool

-- `ObsvObjects`; `last_count` is `none` where the source has -1.
pub record ObsvObjects (F : Type 0) : Type 0 where
  pub objects : List (ℕ × ObsvObject F)
  pub timestamp : ℕ
  pub alive_timestamp : ℕ
  pub switch_timestamp : ℕ
  pub frame_id : ℕ
  pub last_count : Option ℕ
  pub valid_count : ℕ
  pub enter_count : ℕ
  pub last_enter_count : Option ℕ
  pub leave_count : ℕ
  pub last_leave_count : Option ℕ
  pub gate_count : ℕ
  pub last_gate_count : Option ℕ
  pub avg_lifespan : ℕ
  pub last_avg_lifespan : Option ℕ
  pub lifespan_sum : ℕ
  pub lifespan_count : ℕ
  pub switch_duration_sum : ℕ
  pub alive : Bool

-- `flags & Touched` and `flags & Latent`
unfoldable pub is_touched : {F : Type 0} → ObsvObject F → Bool
is_touched o = o.flags % 2 == 1

unfoldable pub is_latent : {F : Type 0} → ObsvObject F → Bool
is_latent o = o.flags / 16 % 2 == 1

-- A difference of two `uint64_t`
abbrev pub minus64 : ℕ → ℕ → ℕ
minus64 a b = (a + 2 ^ 64 - b) % 2 ^ 64

-- `ObsvObjects::clear` and what `ObsvRects::start` does to the objects of a region
unfoldable pub clear : {F : Type 0} → ObsvObjects F → ObsvObjects F
clear os = record os { objects = []; valid_count = 0 }

unfoldable pub start_objects : {F : Type 0} → ObsvObjects F → ObsvObjects F
start_objects os = record os {
  last_count = none;
  enter_count = 0;
  last_enter_count = none;
  leave_count = 0;
  last_leave_count = none;
  gate_count = 0;
  last_gate_count = none;
  last_avg_lifespan = none;
  lifespan_sum = 0;
  lifespan_count = 0;
  switch_timestamp = 0;
  switch_duration_sum = 0;
}

-- What `ObsvRects::reset` does to the objects of a region
unfoldable pub reset_objects : {F : Type 0} → ObsvObjects F → ObsvObjects F
reset_objects os = start_objects (clear os)

-- ===== src/Track.antt =====
-- lidartool/Trackable/Trackable.h: what is tracked, and what the tracking is told. All that is computed
-- in floating point is a parameter: the type `F` of a trackable's floating-point members, the type `D`
-- of distances, and the functions of `Space`. The identifiers of UUIDs are left out.
pub mod Matching
pub mod Merge
pub mod Steps
pub mod Unite
pub mod Ids
pub mod Given
pub mod Marking
pub mod Activation
pub mod Transfer
pub mod Slots
pub mod Forest
pub mod Stable
pub mod Settled
pub mod TakeOver
pub mod SingleStage
pub mod Weights
pub mod Unique
pub mod Frames
pub mod Named
pub mod Latest
pub mod Shown
mod Tests
use lidar.Prelude.{
  ℕ, zero, suc, ◌+◌, ◌%◌, ◌^◌, Bool, true, false, not, ◌&&◌, ◌||◌, List, [], ◌∷◌, ◌++◌, Option,
  none, some, ltb, ◌==◌, if◌then◌else◌, text, find, count, emplace, erase, get_elem?,
}
use lidar.KeyValue.Map.{Text}
use lidar.Observer.Objects.{minus64}

-- `LatentIds`: identifiers with the times at which their trackables were lost.
abbrev pub LatentIds : Type 0
LatentIds = List (Text × ℕ)

-- `LatentIds::put` and `LatentIds::remove`
unfoldable pub put : Text → ℕ → LatentIds → LatentIds
put id timestamp ids = emplace text id timestamp ids

unfoldable pub remove_id : Text → LatentIds → LatentIds
remove_id id ids = erase text id ids

-- The loop of `LatentIds::get`: the oldest entry after the one that is given.
unfoldable pub oldest_of : LatentIds → Text × ℕ → Text × ℕ
oldest_of [] best = best
oldest_of ((id, t) ∷ ids) best =
    oldest_of ids (if (best.1 == 0) || ltb t best.1 then (id, t) else best)

-- `LatentIds::get`
unfoldable pub get_oldest : LatentIds → Option (Text × ℕ)
get_oldest ids = let oldest = oldest_of ids ([], 0) in if oldest.1 == 0 then none else some oldest

-- `LatentIds::addTime`
unfoldable pub add_time : ℕ → LatentIds → LatentIds
add_time time [] = []
add_time time ((id, t) ∷ ids) = (id, (t + time) % 2 ^ 64) ∷ add_time time ids

-- `LatentIds::cleanup`
unfoldable pub cleanup_ids : ℕ → ℕ → LatentIds → LatentIds
cleanup_ids older timestamp [] = []
cleanup_ids older timestamp ((id, t) ∷ ids) =
    let rest = cleanup_ids older timestamp ids in
    if ltb ((t + older) % 2 ^ 64) timestamp then rest else (id, t) ∷ rest

-- `Trackable`; its flags are members, `id` is empty for none, and `place` stands for all members that
-- are numbers in floating point, or that come from the detection (`user1` and `user2`).
pub record Trackable (F : Type 0) : Type 0 where
  pub place : F
  pub num_weight : ℕ
  pub first_time : ℕ
  pub last_time : ℕ
  pub first_private_time : ℕ
  pub first_immobile_time : ℕ
  pub is_touched : Bool
  pub is_private : Bool
  pub is_portal : Bool
  pub is_immobile : Bool
  pub is_activated : Bool
  pub erasable : Bool
  pub id : Text
  pub latent_ids : LatentIds

-- What `trackableMask` tells of a trackable.
pub record Mask : Type 0 where
  pub occluded : Bool
  pub private : Bool
  pub portal : Bool

-- `TrackInfo`
pub record TrackInfo (D : Type 0) : Type 0 where
  pub distance : D
  pub current_index : ℕ
  pub merged_index : ℕ

-- The functions in floating point, with the settings of a `TrackableMultiStage` that they use, and the
-- settings themselves; a `std::to_string` of numbers is `print`.
pub record Space (F D : Type 0) : Type 0 where
  -- `distanceTo`: of the predicted place of a tracked one, by the time since the last frame, from one of
  -- the frame, and of two places
  pub predicted_distance : ℕ → F → F → D
  pub distance_to : F → F → D
  -- `d <= uniteDistance`, `d < uniteDistance`, `d <= trackDistance`, `d < trackDistance`
  pub can_unite : D → Bool
  pub is_close : D → Bool
  pub can_track : D → Bool
  pub is_near : D → Bool
  pub sort : List (TrackInfo D) → List (TrackInfo D)
  -- the values after `init( timestamp, false )`
  pub start : F → F
  -- `mixWith` of a merged trackable of a weight, and in a single stage of two weights
  pub mix_merged : ℕ → F → F → F
  pub mix_single : ℕ → ℕ → F → F → F
  -- what `unite` computes: the prediction, the values of an assigned trackable, its motion, by the time
  -- since the last frame, whether it is assigned, the time since it was seen, and its last place, and
  -- the smoothing
  pub predict : ℕ → F → F
  pub mix_tracked : F → F → F
  pub move : ℕ → Bool → ℕ → F → F → F
  pub smooth : ℕ → F → F
  -- `isCloser`, by the time since the last frame, and the distance if it is
  pub closer : ℕ → F → F → D → Option D
  -- `latentDistance > 0` and `latentDistance`
  pub keeps_latent : Bool
  pub latent_distance : D
  -- `checkImmobile`: whether it has moved away, and the place where it is then
  pub has_moved : F → Bool
  pub stay_here : F → F
  -- `splitProb > 0.85`
  pub has_split : F → Bool
  -- times that reach `keepTime`, are above `minActiveTime * minActiveFraction`, above `minActiveTime`
  pub is_lost : ℕ → Bool
  pub is_inactive : ℕ → Bool
  pub is_active : ℕ → Bool
  pub latent_life_time : ℕ
  pub private_timeout : ℕ
  pub immobile_timeout : ℕ
  pub unite_in_single_stage : Bool
  pub mask : Option (Trackable F → Mask)
  pub print : ℕ → Text

-- `init( timestamp, false )`
unfoldable pub init : {F D : Type 0} → Space F D → ℕ → Trackable F → Trackable F
init s timestamp t = record t {
  place = s.start t.place;
  num_weight = 1;
  first_time = timestamp;
  last_time = timestamp;
  first_private_time = 0;
  first_immobile_time = 0;
  is_touched = false;
  is_private = false;
  is_portal = false;
  is_immobile = false;
  is_activated = false;
  erasable = false;
}

-- `touchPrivate`
unfoldable pub touch_private : {F : Type 0} → Bool → ℕ → ℕ → Trackable F → Trackable F
touch_private set timestamp timeout t =
    if not set
    then record t { first_private_time = 0 }
    else if t.first_private_time == 0
    then record t { first_private_time = timestamp }
    else if ltb timeout (minus64 timestamp t.first_private_time)
    then record t { is_private = true }
    else t

-- `checkImmobile`
unfoldable pub check_immobile : {F D : Type 0} → Space F D → ℕ → ℕ → Trackable F → Trackable F
check_immobile s timestamp timeout t =
    if s.has_moved t.place
    then record t {
      place = s.stay_here t.place;
      first_immobile_time = timestamp;
      is_immobile = false;
    }
    else if t.first_immobile_time == 0
    then record t { first_immobile_time = timestamp }
    else if not t.is_immobile && ltb timeout (minus64 timestamp t.first_immobile_time)
    then record t { is_immobile = true }
    else t

-- `nextId`, after the number that it gave last
unfoldable pub next_id : ℕ → ℕ
next_id last = let n = (last + 1) % 2 ^ 32 in if n == 0 then 1 else n

unfoldable pub is_empty : Text → Bool
is_empty [] = true
is_empty (c ∷ s) = false

-- `id( starttime )`: the number that was given last, and the trackable, with an identifier.
unfoldable pub give_id : {F D : Type 0} → Space F D → ℕ → ℕ → Trackable F → ℕ × Trackable F
give_id s starttime last t =
    if is_empty t.id || not (starttime == 0)
    then (next_id last, record t { id = s.print (next_id last) })
    else (last, t)

-- `cleanup` of `Trackables`
unfoldable pub cleanup_one : {F D : Type 0} → Space F D → ℕ → ℕ → Trackable F → Trackable F
cleanup_one s timestamp time_diff t =
    let ids = if s.has_split t.place then add_time time_diff t.latent_ids else t.latent_ids in
    record t { latent_ids = cleanup_ids s.latent_life_time timestamp ids }

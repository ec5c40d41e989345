-- ===== src/Hub/Sent.antt =====
-- What is added to a frame at one end, and what the other end observes of it.
use lidar.Prelude.{◌<◌, List, [], ◌∷◌, ◌==◌, if◌then◌else◌}
use lidar.Packed.Format.{Binary}
use lidar.Packed.Made.{Added}

-- The members are wide enough for what is added: the hundredths as the bits of an `int16_t`.
pub record Fits (o : Added) : Type 0 where
  pub tid_fits : o.tid < 65536
  pub x_fits : o.x < 65536
  pub y_fits : o.y < 65536
  pub size_fits : o.size < 65536
  pub flags_fit : o.flags < 65536

abbrev pub AllFit : List Added → Type 0
AllFit [] = Unit {0}
AllFit (o ∷ os) = Fits o × AllFit os

-- An object is observed as it was added, but a hundredth where a place or a size is 0.
abbrev pub seen_as : Added → Binary
seen_as o = record {
  tid = o.tid;
  x = if o.x == 0 then 1 else o.x;
  y = if o.y == 0 then 1 else o.y;
  size = if o.size == 0 then 1 else o.size;
  flags = o.flags;
}

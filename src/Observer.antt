-- ===== src/Observer.antt =====
-- lidartool/Trackable/TrackableObserver.h: the observers, which tell what enters and leaves the regions,
-- and what moves in them.
pub mod Objects
pub mod Rects
pub mod Observe
pub mod Presence
pub mod Counts
pub mod Balance
pub mod Running
pub mod Regions
pub mod Flush
mod Tests

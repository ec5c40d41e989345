-- ===== src/Packed.antt =====
-- lidartool/Trackable/PackedTrackable.h: the binary format in which tracked objects are recorded and
-- sent, and the files that hold it.
pub mod Format
pub mod Stream
pub mod Fields
pub mod RoundTrip
pub mod Frames
pub mod Sync
pub mod Resync
pub mod Made
mod Tests

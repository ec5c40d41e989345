-- ===== src/KeyValue.antt =====
-- lidartool/Trackable/keyValueMap.h: the named settings of the tools, and the files that hold them.
pub mod Map
pub mod Laws
pub mod Db
pub mod Json
pub mod Files
mod Tests

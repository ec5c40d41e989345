-- ===== src/Virt.antt =====
-- lidartool/cpp/lidarVirtDriver.cpp and include/lidarVirtDriver.h: a sensor on another machine,
-- seen through UDP datagrams.
pub mod Message
pub mod Scan
pub mod ScanList
pub mod Driver
pub mod Update
mod Tests

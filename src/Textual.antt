-- ===== src/Textual.antt =====
-- lidartool/Trackable/helper.h, lidartool/Trackable/filterTool.h and the arguments and pairs of
-- lidartool/Trackable/keyValueMap.h: texts that are cut to pieces.
pub mod Split
pub mod Pairs
pub mod Filter
pub mod Parsing
pub mod Verdicts
pub mod Enabled
mod Tests

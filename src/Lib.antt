-- ===== src/Lib.antt =====
-- A verification library for lidar, a system that tracks persons with lidar sensors: lidartool
-- drives the sensors, tracks what they see and reports it to observers, sensors can be attached to
-- other machines and reached over UDP, and what is tracked can be recorded and replayed.
--
-- The parts and how they interact. A sensor's machine sends its scans as UDP packets
-- (`LidarVirtualDriver` in the device), and the tool's end of the same class puts them together
-- again and lets the tool grab the newest one. Tracked objects are written to recordings as binary
-- frames (`PackedTrackable`), which `PackedPlayer` reads, one frame after the other or at the
-- frames' times, and `TrackableHUB` receives the same bytes from other machines. Observers are
-- told of each frame which objects enter a region, move in it and leave it. Settings of sensors,
-- groups and the tool live in `KeyValueMap`, in files of JSON or of lines, and the groups of
-- sensors in a database of such maps. A `Filter` selects what observers report. Requests to other
-- machines go through `WebAPI`, at once or by a thread. The LSLidar sensors are read from a serial
-- port.
--
-- Virt models lidartool/include/lidarVirtDriver.h and lidartool/cpp/lidarVirtDriver.cpp, with
-- `sendPacket` and the comparison of addresses of lidartool/include/UDP.hh. Virt/Message has the
-- datagrams (`LidarScanMsg`, `LidarCmdMsg`), Virt/Scan has `LidarScanData` (`addData`,
-- `complete`), Virt/ScanList has `LidarScanDataList` (`getScanData`, `grabScanData`), Virt/Driver
-- has the driver's state and what it sends, and Virt/Update has `update`, `grabScanData` and
-- `getNextCmd`. An access outside of a vector is the result `none` of `add_data`. The files below
-- them have the proofs. The socket is a list of datagrams that wait and one of those that were
-- handed to the system, which may refuse them; times are arguments.
--
-- Packed models lidartool/Trackable/PackedTrackable.h. Packed/Format has the structs `Header`,
-- `Binary` and `BinaryFrame` and their bytes on a little-endian machine; the members of `Binary`
-- that come from floats are the integers that the casts give. Packed/Stream has `Stream::put` and
-- `Stream::get`, `OFile::write` with the number of bytes that the system still takes, and the
-- buffered `IFile` with `openBuffer`, `sync` and `play`.
--
-- Player models `PackedPlayer` of lidartool/include/packedPlayer.h with `update` of
-- lidartool/Trackable/UUID.h: `decodeFrame`, `nextHeader`, `nextFrame`, and in Player/Grab
-- `grabFrame`, which works on the files of Packed.
--
-- KeyValue models lidartool/Trackable/keyValueMap.h with `getBool` of
-- lidartool/Trackable/helper.h: KeyValue/Map has `KeyValueMap`, KeyValue/Db has `KeyValueMapDB`,
-- KeyValue/Json has `writeKeyValues`, `readKeyValues` and their counterparts for a database of
-- maps, on JSON values. How numbers are printed and parsed is the parameter `NumberText`, with the
-- hypothesis `IsNumberText` that a printed number starts with no letter and is parsed to itself.
--
-- WebApi models lidartool/Trackable/webAPI.h and lidartool/Trackable/webAPI.cpp. What libcurl does
-- is the parameter `curl`: for a method and a URL, the callbacks that it makes and its result.
-- WebApi/Thread has the thread and its user as steps in any order.
--
-- Observer models lidartool/Trackable/TrackableObserver.h: Observer/Objects has `ObsvObject` and
-- `ObsvObjects`, Observer/Rects has `ObsvRect` and `ObsvRects` with united and inverted regions,
-- Observer/Observe has the parts of `observe` for a region, Observer/Running has the whole of it
-- with `start`, `stop`, `reset`, `stall` and `resume`, and Observer/Flush the thread that writes
-- the messages. Coordinates are of a type that is a parameter, with the functions on them
-- (`Geometry`). A report only moves the place of an object; its text is left out, and a message is
-- a list of numbers.
--
-- Hub models `decodePacket` and `update` of lidartool/cpp/trackableHUB.cpp on the bytes of Packed.
-- A read beyond the end of a packet is the result `none`. Hub/Sent follows the objects that are added
-- to a frame at one end to what the other end observes.
--
-- Textual models lidartool/Trackable/helper.h (Textual/Split has `split` and `trim`),
-- `readKeyValuePairs` and `parseArg` of lidartool/Trackable/keyValueMap.h (Textual/Pairs) and
-- lidartool/Trackable/filterTool.h (Textual/Filter). The ends of `parseFilter` are the
-- constructors of `Parsed`: done, the exit of the program, and accesses that are out of range.
-- Textual/Parsing has the description of these ends that the others are compared with.
--
-- Lslidar models lidartool/cpp/lslidarDriver.cpp: `parseDataN10` and `grabScanDataN10` for the
-- N10, where the serial port is the list of what each read gives, up to the end of the time;
-- Lslidar/Port and Lslidar/M10 have `waitReadable`, `read`, `readPacketM10` and `grabScanDataM10`,
-- where the port is what `select` tells and what each read gives. An access outside of the scan of
-- an M10 is the result `none`.
--
-- Groups models lidartool/cpp/lidarKit.cpp as far as it selects devices: `LidarDeviceList`,
-- `LidarDeviceGroup` and `activateGroup`, `deviceInGroup`, `isActive` and `runningDevices` of
-- `LidarDevices`. A pointer to a device is a number; the base name of a device is what
-- `getBaseName` gives.
--
-- Track models the tracking of persons in lidartool/Trackable/Trackable.h: Track has `LatentIds` and
-- `Trackable`, Track/Merge the merging of the stages (`mergeStage`, `mergeSubStages`,
-- `mergeSubStagesInSingleStage`), Track/Matching the assignment of a frame to what is tracked,
-- Track/Steps the other loops of `unite` with `putLatentId` and `getLatentId`, and Track/Unite the
-- whole of `unite` with `start`, `stop`, `clear` and `reset`. All that is computed in floating point,
-- distances and settings included, is the parameter `Space`. `none` is an array that is left, or a
-- chain without an end; `Swapped` tells which access leaves an array when a trackable takes over.
--
-- Prelude has the shared names, the Boolean tests, lemmas on lists, bytes of machine words
-- (Prelude/Bytes), `std::map` as a list of entries in the order of the keys (Prelude/Maps), and
-- sums of weights over such a list (Prelude/Weights).
--
-- Machine integers keep their wrap-around: sequence numbers and times are taken modulo 2^64,
-- fields of the structs modulo their widths. Loops without a bound of their own run on fuel.
-- `sync` has two rounds more than the file has bytes, `openBuffer` and `nextFrame` one more,
-- `split` and `parseFilter` one more than the text has characters, the search for the end of a
-- chain in `mergeSubStagesInSingleStage` one more than there are trackables, and each is shown to
-- end with it; `grabFrame` takes its fuel as an argument, and a result for any fuel above the number of
-- frames that are passed over is shown.
--
-- Not modelled: the geometry of tracking (floating point), the frame that `unite` makes for the
-- observers, `swapToOldest`, which nothing calls, UUIDs of what is tracked, the drivers over vendor libraries, the
-- texts of the observers' messages and the observers for other protocols, the pipeline of a
-- sensor's scans, the command line and the web pages, the vendored libraries, stopping the thread
-- of `WebAPI`, unbuffered files, the names and the opening of files, JSON as text, and `connect`
-- of the drivers. The C library's and the STL's functions are taken as documented; texts hold no
-- NUL.
pub mod Prelude
pub mod Groups
pub mod Hub
pub mod KeyValue
pub mod Lslidar
pub mod Observer
pub mod Packed
pub mod Player
pub mod Textual
pub mod Track
pub mod Virt
pub mod WebApi

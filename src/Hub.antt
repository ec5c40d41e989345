-- ===== src/Hub.antt =====
-- lidartool/cpp/trackableHUB.cpp: `TrackableHUB`, which gets the frames of other machines by a web
-- socket.
use lidar.Prelude.{
  ℕ, zero, suc, ◌+◌, ◌-◌, ◌%◌, ◌^◌, Bool, true, false, not, ◌&&◌, List, [], ◌∷◌, ◌++◌, Option, none,
  some, ltb, ◌==◌, if◌then◌else◌, length, take, drop,
}
use lidar.Packed.Format.{
  Header, decode_header, Binary, decode_binary, BinaryFrame, frame_header, start_header,
  stop_header,
}
pub mod Packets
pub mod Sent
mod Tests

-- What `decodePacket` hands to `observe`.
pub data Observed : Type 0 where
  header_seen : Header → Observed
  frame_seen : BinaryFrame → Observed

-- `consume`: a number of bytes, and the rest; `none` if the source copies from beyond the end.
unfoldable pub consume : ℕ → List ℕ → Option (List ℕ × List ℕ)
consume n bytes = if ltb (length bytes) n then none else some (take n bytes, drop n bytes)

-- The loop over the objects of a frame.
unfoldable pub consume_objects : ℕ → List Binary → List ℕ → Option (List Binary)
consume_objects zero objects bytes = some objects
consume_objects (suc count) objects bytes = elim (consume 12 bytes) [
  | none ↦ none
  | some (b, rest) ↦ consume_objects count (objects ++ decode_binary b ∷ []) rest
]

-- A frame: the header, the UUID and the objects.
unfoldable pub consume_frame : List ℕ → Option BinaryFrame
consume_frame bytes = elim (consume 16 bytes) [
  | none ↦ none
  | some (h, rest) ↦ elim (consume 16 rest) [
    | none ↦ none
    | some (uuid, rest') ↦ elim (consume_objects (decode_header h).size [] rest') [
      | none ↦ none
      | some objects ↦ some (record { header_ = decode_header h; uuid = uuid; objects = objects })
    ]
  ]
]

-- `FrameHeader` of the switch
unfoldable pub observe_frame : List ℕ → Option (Bool × Option Observed)
observe_frame bytes = elim (consume_frame bytes) [
  | none ↦ none
  | some fr ↦ some (true, some (frame_seen fr))
]

-- `decodePacket`: its result, and what it has observed; `none` if it reads beyond the packet. `header`
-- refers to the packet's bytes: `zero` is read first, then `flags`; `observe` is handed the whole of it.
unfoldable pub decode_packet : List ℕ → Option (Bool × Option Observed)
decode_packet bytes =
    let h = decode_header bytes in
    let type = h.flags % 256 in
    let whole : Option (Bool × Option Observed) =
      if ltb (length bytes) 16 then none else some (true, some (header_seen h)) in
    let frame = observe_frame bytes in
    if ltb (length bytes) 4
    then none
    else if not (h.zero_ == 0)
    then some (false, none)
    else if ltb (length bytes) 6
    then none
    else if type == start_header
    then whole
    else if type == stop_header
    then whole
    else if type == frame_header
    then frame
    else some (false, none)

-- The connection, and the time at which it was tried last.
pub record TrackableHub : Type 0 where
  pub connected : Bool
  pub last_connection_time : ℕ

-- `update`; `connects` tells whether `ws_connect` succeeds, were it called.
unfoldable pub update_hub : ℕ → Bool → TrackableHub → TrackableHub × Bool
update_hub now connects hub =
    let tries =
      not hub.connected && ltb 1000 ((now + 2 ^ 64 - hub.last_connection_time) % 2 ^ 64) in
    let hub' =
      if tries then record hub { connected = connects; last_connection_time = now } else hub in
    (hub', hub'.connected)

-- ===== src/Packet.antt =====
-- src/Networking/E_Packet.cpp: the buffer of a packet, and the allocation of packet ids.
pub mod Buffer
pub mod Ids
pub mod Objects
pub mod Lifetimes
pub mod Copies
use Prim.Native.Nat.{min}
use kensv.Prelude.{
  ℕ, zero, suc, ◌+◌, ◌-◌, ◌%◌, ◌^◌, Bool, true, false, Option, none, some, List, [], ◌∷◌, ◌++◌,
  length, take, drop, replicate, leb, ◌==◌, if◌then◌else◌,
}
use kensv.Prelude.NumSet.{member, insert, remove}

pub record Packet : Type 0 where
  pub buffer : List ℕ
  pub packet_id : ℕ

-- The static `packetUUIDSet` and `packetUUIDStart`.
pub record Allocator : Type 0 where
  pub packet_uuid_set : List ℕ
  pub packet_uuid_start : ℕ

-- The `do ... while (candidate != packetUUIDStart)` of `allocatePacketUUID`, from a candidate on:
-- `none` when the loop comes back to its start and `assert(0)` fails, or when the fuel ends.
unfoldable pub search_uuid : ℕ → ℕ → Allocator → Option (Allocator × ℕ)
search_uuid zero candidate a = none
search_uuid (suc fuel) candidate a =
    let next = (candidate + 1) % 2 ^ 64 in
    let rest = if next == a.packet_uuid_start then none else search_uuid fuel next a in
    if member candidate a.packet_uuid_set
    then rest
    else some (
      record { packet_uuid_set = insert candidate a.packet_uuid_set; packet_uuid_start = next },
      candidate,
    )

-- `length + 1` rounds are enough, since each round but the last finds another id of the set.
unfoldable pub allocate_packet_uuid : Allocator → Option (Allocator × ℕ)
unfolding search_uuid
allocate_packet_uuid a = search_uuid (length a.packet_uuid_set + 1) a.packet_uuid_start a

unfoldable pub free_packet_uuid : ℕ → Allocator → Allocator
free_packet_uuid uuid a = record a { packet_uuid_set = remove uuid a.packet_uuid_set }

-- `Packet(size_t size)`: a new id, and a buffer of zeros.
unfoldable pub new : ℕ → Allocator → Option (Allocator × Packet)
new size a = elim (allocate_packet_uuid a) [
  | none ↦ none
  | some (a', uuid) ↦ some (a', record { buffer = replicate size 0; packet_id = uuid })
]

-- `clone`: a new id, and a copy of the buffer.
unfoldable pub clone : Packet → Allocator → Option (Allocator × Packet)
unfolding new
clone p a = elim (new (length p.buffer) a) [
  | none ↦ none
  | some (a', q) ↦ some (a', record q { buffer = p.buffer })
]

unfoldable pub get_size : Packet → ℕ
get_size p = length p.buffer

-- `buffer.resize(size)`: cut off, or filled up with zeros.
unfoldable pub set_size : ℕ → Packet → Packet × ℕ
set_size size p =
    (record p { buffer = take size p.buffer ++ replicate (size - length p.buffer) 0 }, size)

-- `memcpy` into a buffer that has room for the bytes at the offset.
abbrev pub splice : ℕ → List ℕ → List ℕ → List ℕ
splice offset bytes buffer = take offset buffer ++ (bytes ++ drop (offset + length bytes) buffer)

-- `writeData`. The `memcpy` copies all bytes that are given, not the `actual_write` of them: `none`
-- where that leaves the buffer.
unfoldable pub write_data : ℕ → List ℕ → Packet → Option (Packet × ℕ)
write_data offset bytes p =
    let size = length p.buffer in
    let actual_offset = min offset size in
    let actual_write = min (length bytes) (size - actual_offset) in
    if actual_write == 0
    then some (p, 0)
    else if leb (actual_offset + length bytes) size
    then some (record p { buffer = splice actual_offset bytes p.buffer }, actual_write)
    else none

-- `readData`: the bytes that are written to the destination, and the value returned. Here too the
-- `memcpy` copies `len` bytes, not `actual_read`: `none` where that leaves the buffer.
unfoldable pub read_data : ℕ → ℕ → Packet → Option (List ℕ × ℕ)
read_data offset len p =
    let size = length p.buffer in
    let actual_offset = min offset size in
    let actual_read = min len (size - actual_offset) in
    if actual_read == 0
    then some ([], 0)
    else if leb (actual_offset + len) size
    then some (take len (drop actual_offset p.buffer), actual_read)
    else none

unfoldable pub get_uuid : Packet → ℕ
get_uuid p = p.packet_id

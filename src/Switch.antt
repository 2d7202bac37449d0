-- ===== src/Switch.antt =====
-- src/Networking/E_Switch.cpp and src/Networking/E_Hub.cpp: which packets leave through which ports.
-- Whether a packet is lost depends on a random draw and on a floating-point threshold; both are
-- arguments, in the form of the answers for the ports, in order.
pub mod Damage
pub mod Forward
pub mod Queueing
pub mod Runs
use kensv.Prelude.{
  ◌++◌, length, ℕ, ◌+◌, ◌-◌, ◌*◌, ◌^◌, Bool, true, false, not, ◌&&◌, ◌||◌, Option, none, some, List,
  [], ◌∷◌, leb, ◌==◌, if◌then◌else◌, get_elem?,
}
use kensv.Prelude.Maybe.{◌>>=◌}
use kensv.Prelude.Table.{Table, lookup, assign}
use kensv.Prelude.NumSet.{member, insert}
use kensv.NetworkUtil.{array_to_uint64}
use kensv.Packet.{Packet, Allocator, free_packet_uuid, clone, get_size}
use kensv.Ipv4.{read_bytes, write_bytes}

-- `Switch`, with the `ports` of its `NetworkModule`.
pub record Switch : Type 0 where
  pub ports : List ℕ
  pub mac_table : Table (List ℕ)
  pub unreliable : Bool

-- `NetworkModule::connectWire`, with the index of the new port.
unfoldable pub connect_wire : ℕ → Switch → Switch × ℕ
connect_wire wire s = (record s { ports = s.ports ++ wire ∷ [] }, length s.ports)

abbrev or_empty : Option (List ℕ) → List ℕ
or_empty none = []
or_empty (some s) = s

-- `addMACEntry`; `none` is an index beyond `ports`.
unfoldable pub add_mac_entry : (port : ℕ) → List ℕ → Switch → Option Switch
add_mac_entry port mac s = do
  wire ← get_elem? s.ports port
  some (record s {
    mac_table =
        assign wire (insert (array_to_uint64 mac) (or_empty (lookup wire s.mac_table))) s.mac_table;
  })

abbrev pub broad_int : ℕ
broad_int = 2 ^ 48 - 1

-- Whether a packet for the hardware address goes to the wire.
unfoldable pub is_target : ℕ → ℕ → Switch → Bool
is_target mac_int wire s =
    (mac_int == broad_int) || member mac_int (or_empty (lookup wire s.mac_table))

-- The damage to a packet that is lost: another sequence of four bytes behind the TCP header, or,
-- in a packet without, another checksum.
unfoldable pub damage : Packet → Option Packet
damage p =
    if leb 58 (get_size p)
    then (read_bytes 54 4 p >>= λ bytes.
        write_bytes 54
          ((if array_to_uint64 bytes == 0xEEEEEEEE then 0xEF else 0xEE) ∷ 0xEE ∷ 0xEE ∷ 0xEE ∷ [])
          p)
    else if leb 54 (get_size p)
    then (read_bytes 50 2 p >>= λ bytes.
        write_bytes 50 ((if array_to_uint64 bytes == 0xEEEE then 0xEF else 0xEE) ∷ 0xEE ∷ []) p)
    else some p

-- A packet that leaves, through its wire.
abbrev pub Departures : Type 0
Departures = Option (Allocator × List (ℕ × Packet))

-- The loop over the targets. The destructor of `newPacket`, which was moved from, frees the id that the
-- packet in the queue goes on to bear.
unfoldable pub forward :
    (mac_int in_wire : ℕ) → Packet → Switch → List ℕ → (ℕ → Bool) → Allocator → Departures
forward mac_int in_wire p s [] lost a = some (a, [])
forward mac_int in_wire p s (wire ∷ wires) lost a =
    if not (in_wire == wire) && is_target mac_int wire s
    then (do
      (a₁, copy) ← clone p a
      sent ← if s.unreliable && lost wire then damage copy else some copy
      (a₂, rest) ← forward mac_int in_wire p s wires lost (free_packet_uuid copy.packet_id a₁)
      some (a₂, (wire, sent) ∷ rest))
    else forward mac_int in_wire p s wires lost a

-- The loop over all wires but the one of the arrival, of a hub, and of a switch without a target.
unfoldable pub flood : (in_wire : ℕ) → Packet → List ℕ → Allocator → Departures
flood in_wire p [] a = some (a, [])
flood in_wire p (wire ∷ wires) a =
    if not (in_wire == wire)
    then (do
      (a₁, copy) ← clone p a
      (a₂, rest) ← flood in_wire p wires (free_packet_uuid copy.packet_id a₁)
      some (a₂, (wire, copy) ∷ rest))
    else flood in_wire p wires a

-- `found`.
unfoldable pub found : (mac_int in_wire : ℕ) → Switch → List ℕ → Bool
found mac_int in_wire s [] = false
found mac_int in_wire s (wire ∷ wires) =
    (not (in_wire == wire) && is_target mac_int wire s) || found mac_int in_wire s wires

-- `Switch::packetArrived`, up to the `sendPacket` of each departure.
unfoldable pub packet_arrived :
    (in_wire : ℕ) → Packet → Switch → (ℕ → Bool) → Allocator → Departures
packet_arrived in_wire p s lost a = do
  mac ← read_bytes 0 6 p
  if found (array_to_uint64 mac) in_wire s s.ports
      then forward (array_to_uint64 mac) in_wire p s s.ports lost a
      else flood in_wire p s.ports a

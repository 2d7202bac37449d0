-- ===== src/Ipv4.antt =====
-- src/Networking/IPv4/E_IPv4.cpp: the IPv4 module of a host.
pub mod Header
use Prim.Native.String.{String}
use text.Mathlib.Text.{◌==◌ as str_eq}
use kensv.Prelude.{
  ℕ, ◌+◌, ◌-◌, ◌*◌, ◌/◌, ◌%◌, ◌^◌, Bool, true, false, not, ◌&&◌, ◌||◌, Option, none, some, List, [],
  ◌∷◌, leb, ◌==◌, if◌then◌else◌,
}
use kensv.Prelude.Maybe.{◌>>=◌, ◌>>◌, assert}
use kensv.NetworkUtil.{one_sum, le_bytes, htons}
use kensv.Packet.{Packet, get_size, write_data, read_data}

-- `readData(offset, &b, len)` into variables that are then used: `none` also where fewer bytes
-- arrive, since the variables have no value before.
unfoldable pub read_bytes : ℕ → ℕ → Packet → Option (List ℕ)
read_bytes offset len p = do
  (bytes, count) ← read_data offset len p
  if count == len then some bytes else none

unfoldable pub read_byte : ℕ → Packet → Option ℕ
unfolding read_bytes
read_byte offset p = read_bytes offset 1 p >>= λ bytes. elim bytes [ [] ↦ none | b ∷ _ ↦ some b ]

-- `writeData(offset, &b, 1)`, its return value unused.
unfoldable pub write_bytes : ℕ → List ℕ → Packet → Option Packet
write_bytes offset bytes p = write_data offset bytes p >>= λ (q, _). some q

abbrev pub ip_start : ℕ
ip_start = 14

-- What a host module does with a packet: it passes it on to the module of that name, or (`none`)
-- lets it go.
abbrev pub Output : Type 0
Output = Option (String × Packet)

-- The branch for a packet from "Ethernet".
unfoldable pub receive : Packet → Option Output
receive p = do
  first_byte ← read_byte 12 p
  second_byte ← read_byte 13 p
  assert ((first_byte == 0x08) && (second_byte == 0x00))
  ip_header_buffer ← read_bytes ip_start 20 p
  let checksum = one_sum ip_header_buffer
  if not (checksum == 0xFFFF) && not (checksum == 0) then some none else (do
    protocol ← read_byte (ip_start + 9) p
    some (
        if protocol == 0x06
        then some ("TCP", p)
        else if protocol == 0x11
        then some ("UDP", p)
        else if protocol == 0x59
        then some ("OSPF", p)
        else none))

-- The header fields, the checksum still 0; `cur_id` is the identification.
unfoldable pub write_header : ℕ → ℕ → Packet → Option Packet
write_header proto cur_id p = do
  p ← write_bytes (ip_start + 0) ((4 * 2 ^ 4 + 5) ∷ []) p
  p ← write_bytes (ip_start + 1) (0 ∷ []) p
  assert (leb (ip_start + 20) (get_size p))
  let size = (get_size p - ip_start) % 2 ^ 16
  p ← write_bytes (ip_start + 2) ((size / 2 ^ 8) ∷ []) p
  p ← write_bytes (ip_start + 3) ((size % 2 ^ 8) ∷ []) p
  p ← write_bytes (ip_start + 4) ((cur_id / 2 ^ 8) ∷ []) p
  p ← write_bytes (ip_start + 5) ((cur_id % 2 ^ 8) ∷ []) p
  p ← write_bytes (ip_start + 6) ((1 * 2 ^ 6) ∷ []) p
  p ← write_bytes (ip_start + 7) (0 ∷ []) p
  p ← write_bytes (ip_start + 8) (64 ∷ []) p
  p ← write_bytes (ip_start + 9) (proto ∷ []) p
  p ← write_bytes (ip_start + 10) (0 ∷ []) p
  write_bytes (ip_start + 11) (0 ∷ []) p

-- The checksum of the header, inverted as a `uint16_t` and stored in network order.
unfoldable pub write_checksum : Packet → Option Packet
write_checksum p = do
  ip_header_buffer ← read_bytes ip_start 20 p
  let checksum = 0xFFFF - one_sum ip_header_buffer
  write_bytes (ip_start + 10) (le_bytes 2 (htons checksum)) p

-- The branch for a packet from "TCP", "UDP" or "OSPF", with the next identification.
unfoldable pub transmit : ℕ → ℕ → Packet → Option (ℕ × Output)
unfolding write_header write_checksum
transmit proto identification p = do
  p ← write_header proto identification p
  p ← write_checksum p
  some ((identification + 1) % 2 ^ 16, some ("Ethernet", p))

-- `packetArrived`, on the `uint16_t identification`.
unfoldable pub packet_arrived : String → Packet → ℕ → Option (ℕ × Output)
unfolding receive transmit
packet_arrived from_module p identification =
    if str_eq from_module "Ethernet"
    then (receive p >>= λ out. some (identification, out))
    else if str_eq from_module "TCP" || str_eq from_module "UDP" || str_eq from_module "OSPF"
    then transmit
        (if str_eq from_module "OSPF"
          then 0x59
          else if str_eq from_module "UDP"
          then 0x11
          else if str_eq from_module "TCP"
          then 0x06
          else 0)
        identification p
    else none

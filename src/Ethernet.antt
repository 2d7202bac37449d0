-- ===== src/Ethernet.antt =====
-- src/Networking/Ethernet/E_Ethernet.cpp: the Ethernet module of a host.
pub mod Stack
use Prim.Native.String.{String}
use text.Mathlib.Text.{◌==◌ as str_eq}
use kensv.Prelude.{
  ℕ, ◌+◌, Bool, true, false, ◌&&◌, ◌||◌, Option, none, some, List, [], ◌∷◌, ◌==◌, if◌then◌else◌,
}
use kensv.Prelude.Maybe.{◌>>=◌}
use kensv.Packet.{Packet}
use kensv.RoutingInfo.{RoutingInfo, same_bytes, get_mac_addr, get_arp_table, get_routing_table}
use kensv.Ipv4.{read_bytes, read_byte, write_bytes, Output}

abbrev mac_broadcast : List ℕ
mac_broadcast = 0xFF ∷ 0xFF ∷ 0xFF ∷ 0xFF ∷ 0xFF ∷ 0xFF ∷ []

-- Membership in the set `ip_broadcasts`.
unfoldable pub is_broadcast : List ℕ → Bool
unfolding same_bytes
is_broadcast ip =
    same_bytes ip (255 ∷ 255 ∷ 255 ∷ 255 ∷ [])
    || same_bytes ip (224 ∷ 0 ∷ 0 ∷ 5 ∷ [])
    || same_bytes ip (224 ∷ 0 ∷ 0 ∷ 6 ∷ [])

-- The branch for a packet from "Host". `none` is `assert(0)` for an unknown ethertype.
unfoldable pub receive : Packet → Option Output
receive p = do
  first_byte ← read_byte 12 p
  second_byte ← read_byte 13 p
  if (first_byte == 0x08) && (second_byte == 0x00)
      then some (some ("IPv4", p))
      else if (first_byte == 0x86) && (second_byte == 0xDD)
      then some (some ("IPv6", p))
      else none

-- Both addresses are written, and the packet goes to the host; it is dropped where one is unknown.
unfoldable pub address : Option (List ℕ) → Option (List ℕ) → Packet → Option Output
address none dst p = some none
address (some src) none p = some none
address (some src) (some dst) p = do
  p ← write_bytes 0 dst p
  p ← write_bytes 6 src p
  some (some ("Host", p))

-- The branch for a packet from "IPv4".
unfoldable pub transmit : RoutingInfo → Packet → Option Output
unfolding address
transmit r p = do
  p ← write_bytes 12 (0x08 ∷ []) p
  p ← write_bytes 13 (0x00 ∷ []) p
  dst_ip ← read_bytes 30 4 p
  if is_broadcast dst_ip
      then (do
        src_ip ← read_bytes 26 4 p
        port ← get_routing_table src_ip r
        address (get_mac_addr port r) (some mac_broadcast) p)
      else (do
        port ← get_routing_table dst_ip r
        address (get_mac_addr port r) (get_arp_table dst_ip r) p)

-- The branch for a packet from "IPv6".
unfoldable pub transmit_ipv6 : Packet → Option Output
transmit_ipv6 p = do
  p ← write_bytes 12 (0x86 ∷ []) p
  p ← write_bytes 13 (0xDD ∷ []) p
  some (some ("Host", p))

unfoldable pub packet_arrived : RoutingInfo → String → Packet → Option Output
unfolding receive transmit transmit_ipv6
packet_arrived r from_module p =
    if str_eq from_module "Host"
    then receive p
    else if str_eq from_module "IPv4"
    then transmit r p
    else if str_eq from_module "IPv6"
    then transmit_ipv6 p
    else some none

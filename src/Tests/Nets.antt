-- ===== src/Tests/Nets.antt =====
-- A datagram of TCP between two hosts, a segment of one byte beyond the least, and small buffers.
use kensv.Prelude.{
  ℕ, ◌+◌, ◌-◌, ◌^◌, ◌<◌, ◌≡◌, ◌↔◌, refl, ◌⊎◌, true, none, some, List, [], ◌∷◌, ◌++◌, if◌then◌else◌,
  ltb, arith, length, take, drop, replicate,
}
use kensv.NetworkUtil.{one_sum, tcp_sum, pseudoheader}
use kensv.NetworkUtil.Checksum.{ones_complement, word_sum, one_sum_lem, tcp_sum_lem}
use kensv.Packet.{Packet, Allocator, allocate_packet_uuid, write_data}
use kensv.Packet.Buffer.{Written, write_data-Written, write_data-none}
use kensv.Packet.Ids.{Allocates, allocate_packet_uuid-Allocates}
use kensv.RoutingInfo.{
  same_bytes, find_mac, find_arp, select_route, bytes_match, full_mask, parts_match, RouteEntry,
  RoutingInfo, entry_matches, get_routing_table, get_mac_addr, get_arp_table,
}
use kensv.RoutingInfo.Longest.{NoLonger, Chosen, get_routing_table_lem}
use kensv.Ipv4
use kensv.Ethernet
use kensv.Ethernet.{is_broadcast}
use kensv.Ethernet.Stack.{IsReachable, tcp, copy, delivered}

abbrev home : List ℕ
home = 192 ∷ 168 ∷ 0 ∷ 1 ∷ []

abbrev peer : List ℕ
peer = 192 ∷ 168 ∷ 0 ∷ 2 ∷ []

abbrev pub home_mac : List ℕ
home_mac = 2 ∷ 0 ∷ 0 ∷ 0 ∷ 0 ∷ 1 ∷ []

abbrev pub peer_mac : List ℕ
peer_mac = 2 ∷ 0 ∷ 0 ∷ 0 ∷ 0 ∷ 2 ∷ []

abbrev pub tables : RoutingInfo
tables = record {
  mac_vector =
      record { mac = home_mac; port = 1 }
      ∷ record { mac = 2 ∷ 0 ∷ 0 ∷ 0 ∷ 0 ∷ 9 ∷ []; port = 0 }
      ∷ [];
  ip_vector = [];
  arp_vector = record { ip = peer; mac = peer_mac } ∷ [];
  route_vector =
      record { ip_mask = 192 ∷ 168 ∷ 0 ∷ 0 ∷ []; prefix = 24; port = 1 }
      ∷ record { ip_mask = 192 ∷ 168 ∷ 0 ∷ 0 ∷ []; prefix = 16; port = 2 }
      ∷ [];
}

abbrev defaults : RoutingInfo
defaults = record tables {
  route_vector = record { ip_mask = 0 ∷ 0 ∷ 0 ∷ 0 ∷ []; prefix = 0; port = 3 } ∷ [];
}

abbrev pub datagram : Packet
datagram = record {
  buffer =
      0
      ∷ 0
      ∷ 0
      ∷ 0
      ∷ 0
      ∷ 0
      ∷ 0
      ∷ 0
      ∷ 0
      ∷ 0
      ∷ 0
      ∷ 0
      ∷ 0
      ∷ 0
      ∷ 0
      ∷ 0
      ∷ 0
      ∷ 0
      ∷ 0
      ∷ 0
      ∷ 0
      ∷ 0
      ∷ 0
      ∷ 0
      ∷ 0
      ∷ 0
      ∷ (home ++ (peer ++ (1 ∷ 2 ∷ [])));
  packet_id = 0;
}

abbrev peer_route : RouteEntry
peer_route = record { ip_mask = 192 ∷ 168 ∷ 0 ∷ 0 ∷ []; prefix = 24; port = 1 }

get_routing_table_lem_example :
    (n : ℕ) × (port : ℕ) × (get_routing_table peer tables ≡ some port)
    × NoLonger peer n tables.route_vector
    × (((n ≡ 0) × (port ≡ 0)) ⊎ Chosen peer n port tables.route_vector)
get_routing_table_lem_example =
    get_routing_table_lem peer tables (refl, ground arith) (ground arith)

one_sum_lem_example : one_sum home ≡ ones_complement (word_sum true home)
one_sum_lem_example = one_sum_lem home (ground arith)

abbrev segment : List ℕ
segment = replicate 21 255

tcp_sum_lem_example : tcp_sum 1 2 segment ≡ (
    if ltb (length segment) 20 then 0 else one_sum (pseudoheader 1 2 (length segment) ++ segment))
tcp_sum_lem_example = tcp_sum_lem 1 2 segment (ground arith)

write_data-Written_example :
    (q : Packet) × (write_data 26 home datagram ≡ some (q, 4)) × Written 26 home datagram q
write_data-Written_example = write_data-Written 26 home datagram (omega arith)

write_data-none_example :
    (write_data 33 home datagram ≡ none)
    ↔ ((33 < length datagram.buffer) × (length datagram.buffer < 33 + 4))
write_data-none_example = write_data-none 33 home datagram

abbrev allocator : Allocator
allocator = record { packet_uuid_set = (2 ^ 64 - 1) ∷ []; packet_uuid_start = 2 ^ 64 - 1 }

allocate_packet_uuid-Allocates_example : Allocates allocator (allocate_packet_uuid allocator)
allocate_packet_uuid-Allocates_example =
    allocate_packet_uuid-Allocates allocator (omega arith) (omega arith)

pub peer-IsReachable : IsReachable tables peer home_mac peer_mac
unfolding is_broadcast same_bytes get_mac_addr get_arp_table get_routing_table find_mac find_arp
    select_route entry_matches bytes_match full_mask parts_match
peer-IsReachable = record {
  port = 1;
  unicast = refl;
  route = refl;
  source = refl;
  target = refl;
  source_size = refl;
  target_size = refl;
}

delivered_example :
    (q : Packet) × (q' : Packet) × (Ipv4.packet_arrived "TCP" datagram 7
      ≡ some (8, some ("Ethernet", q)))
    × (Ethernet.packet_arrived tables "IPv4" q ≡ some (some ("Host", q')))
    × ((i : ℕ)
        → Ethernet.packet_arrived defaults "Host" (copy i q') ≡ some (some ("IPv4", copy i q')))
    × ((i : ℕ) → Ipv4.packet_arrived "Ethernet" (copy i q') 0 ≡ some (0, some ("TCP", copy i q')))
    × (drop 26 q'.buffer ≡ drop 26 datagram.buffer)
    × (take 6 (drop 6 q'.buffer) ≡ home_mac)
    × (take 6 q'.buffer ≡ peer_mac)
delivered_example =
    delivered tcp tables defaults datagram 7 0 home_mac peer_mac (omega arith) (ground arith)
      (omega arith) peer-IsReachable

-- ===== src/RoutingInfo.antt =====
-- src/Networking/E_RoutingInfo.cpp: the tables of a host. The methods of `RoutingInfoInterface`
-- only pass their arguments on to these.
pub mod Prefix
pub mod Longest
use Prim.Native.Nat.{bit_and}
use kensv.Prelude.{
  ℕ, zero, suc, ◌+◌, ◌-◌, ◌*◌, ◌/◌, ◌%◌, ◌^◌, Bool, true, false, ◌&&◌, Option, none, some, List, [],
  ◌∷◌, ◌++◌, get_elem?, ltb, ◌==◌, if◌then◌else◌,
}
use kensv.Prelude.Maybe.{◌>>=◌}

pub record MacEntry : Type 0 where
  pub mac : List ℕ
  pub port : ℕ

pub record IpEntry : Type 0 where
  pub ip : List ℕ
  pub port : ℕ

pub record ArpEntry : Type 0 where
  pub ip : List ℕ
  pub mac : List ℕ

pub record RouteEntry : Type 0 where
  pub ip_mask : List ℕ
  pub prefix : ℕ
  pub port : ℕ

pub record RoutingInfo : Type 0 where
  pub mac_vector : List MacEntry
  pub ip_vector : List IpEntry
  pub arp_vector : List ArpEntry
  pub route_vector : List RouteEntry

unfoldable pub set_ip_addr : List ℕ → ℕ → RoutingInfo → RoutingInfo
set_ip_addr ip port r = record r { ip_vector = r.ip_vector ++ record { ip = ip; port = port } ∷ [] }

unfoldable pub set_mac_addr : List ℕ → ℕ → RoutingInfo → RoutingInfo
set_mac_addr mac port r = record r {
  mac_vector = r.mac_vector ++ record { mac = mac; port = port } ∷ [];
}

unfoldable pub set_arp_table : List ℕ → List ℕ → RoutingInfo → RoutingInfo
set_arp_table mac ip r = record r {
  arp_vector = r.arp_vector ++ record { ip = ip; mac = mac } ∷ [];
}

unfoldable pub set_routing_table : List ℕ → ℕ → ℕ → RoutingInfo → RoutingInfo
set_routing_table mask prefix port r = record r {
  route_vector = r.route_vector ++ record { ip_mask = mask; prefix = prefix; port = port } ∷ [];
}

-- `==` of two `std::array<uint8_t, N>`.
unfoldable pub same_bytes : List ℕ → List ℕ → Bool
same_bytes [] [] = true
same_bytes (a ∷ as') (b ∷ bs) = (a == b) && same_bytes as' bs
same_bytes _ _ = false

unfoldable pub find_ip : ℕ → List IpEntry → Option (List ℕ)
find_ip port [] = none
find_ip port (e ∷ es) = if e.port == port then some e.ip else find_ip port es

unfoldable pub find_mac : ℕ → List MacEntry → Option (List ℕ)
find_mac port [] = none
find_mac port (e ∷ es) = if e.port == port then some e.mac else find_mac port es

unfoldable pub find_arp : List ℕ → List ArpEntry → Option (List ℕ)
find_arp ip [] = none
find_arp ip (e ∷ es) = if same_bytes ip e.ip then some e.mac else find_arp ip es

unfoldable pub get_ip_addr : ℕ → RoutingInfo → Option (List ℕ)
get_ip_addr port r = find_ip port r.ip_vector

unfoldable pub get_mac_addr : ℕ → RoutingInfo → Option (List ℕ)
get_mac_addr port r = find_mac port r.mac_vector

unfoldable pub get_arp_table : List ℕ → RoutingInfo → Option (List ℕ)
get_arp_table ip r = find_arp ip r.arp_vector

-- The loop over the whole bytes of a prefix. `none` stands for an index outside of the arrays.
unfoldable pub bytes_match : ℕ → List ℕ → List ℕ → Option Bool
bytes_match zero ip mask = some true
bytes_match (suc n) (a ∷ ip) (b ∷ mask) = bytes_match n ip mask >>= λ rest. some ((a == b) && rest)
bytes_match (suc n) _ _ = none

-- `0xFF >> remove << remove`, as a `uint8_t`.
unfoldable pub full_mask : ℕ → ℕ
full_mask remaining = let drop = 8 - remaining in 0xff / 2 ^ drop * 2 ^ drop % 2 ^ 8

-- The comparison over `whole` bytes and `remaining` bits.
unfoldable pub parts_match : ℕ → ℕ → List ℕ → List ℕ → Option Bool
unfolding bytes_match
parts_match whole remaining ip mask = do
  matches ← bytes_match whole ip mask
  if ltb 0 remaining
      then (do
        a ← get_elem? ip whole
        b ← get_elem? mask whole
        some (matches && (bit_and a (full_mask remaining) == bit_and b (full_mask remaining))))
      else some matches

unfoldable pub entry_matches : List ℕ → RouteEntry → Option Bool
entry_matches ip e = parts_match (e.prefix / 8) (e.prefix % 8) ip e.ip_mask

-- The loop over `route_vector`, with `current_prefix` and `selected_port`.
unfoldable pub select_route : List ℕ → ℕ → ℕ → List RouteEntry → Option ℕ
select_route ip current_prefix selected_port [] = some selected_port
select_route ip current_prefix selected_port (e ∷ es) = do
  hit ← entry_matches ip e
  let better = hit && ltb current_prefix e.prefix
  select_route ip (if better then e.prefix else current_prefix)
      (if better then e.port else selected_port) es

unfoldable pub get_routing_table : List ℕ → RoutingInfo → Option ℕ
get_routing_table ip r = select_route ip 0 0 r.route_vector

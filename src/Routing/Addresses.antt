-- ===== src/Routing/Addresses.antt =====
-- mac_addr and network_addr of app/rip/testrip.cpp.
use kensv.Prelude.{
  ℕ, zero, suc, ◌/◌, ◌%◌, ◌^◌, ◌<◌, ◌≡◌, ◌≢◌, Option, none, some, List, [], ◌∷◌, ltb, ◌==◌,
  if◌then◌else◌, set, arith,
}
use kensv.Prelude.Maybe.{◌>>◌, assert}

-- The loop, which writes the digits from the index `i` down to 1, and what is left of the id.
unfoldable pub write_id : (i id : ℕ) → List ℕ → List ℕ × ℕ
write_id zero id address = (address, id)
write_id (suc i) id address =
    let rest = write_id i (id / 256) (set address (suc i) (id % 256)) in
    if id == 0 then (address, id) else rest

unfoldable pub mac_addr : ℕ → Option (List ℕ)
mac_addr mac_id =
    let (mac, left) = write_id 5 mac_id (0xBC ∷ 0 ∷ 0 ∷ 0 ∷ 0 ∷ 0 ∷ []) in
    assert (left == 0) >> some mac

unfoldable pub network_addr : ℕ → Option (List ℕ)
network_addr network_id =
    let (network, left) = write_id 2 network_id (10 ∷ 0 ∷ 0 ∷ 0 ∷ []) in
    assert (left == 0) >> some network

-- The address of the network with an id, if it is below 2 ^ 16.
pub network_addr_lem :
    (id : ℕ)
    → network_addr id
      ≡ (if ltb id (2 ^ 16) then some (10 ∷ id / 2 ^ 8 ∷ id % 2 ^ 8 ∷ 0 ∷ []) else none)
unfolding network_addr write_id
network_addr_lem id = ground arith

pub mac_addr_lem :
    (id : ℕ)
    → mac_addr id ≡ (
        if ltb id (2 ^ 40)
        then some (
            0xBC
            ∷ id / 2 ^ 32
            ∷ id / 2 ^ 24 % 2 ^ 8
            ∷ id / 2 ^ 16 % 2 ^ 8
            ∷ id / 2 ^ 8 % 2 ^ 8
            ∷ id % 2 ^ 8
            ∷ [])
        else none)
unfolding mac_addr write_id
mac_addr_lem id = ground arith

-- Different ids, of which the first is below 2 ^ 40 for a port and below 2 ^ 16 for a network, do not get the same address.
pub addresses_differ :
    (i j k l : ℕ)
    → i ≢ j
    → i < 2 ^ 40
    → k ≢ l
    → k < 2 ^ 16
    → (mac_addr i ≢ mac_addr j) × (network_addr k ≢ network_addr l)
addresses_differ i j k l macs mac_room networks network_room = (
  λ same. let e = rw (mac_addr_lem i, mac_addr_lem j) at same in macs (ground arith),
  λ same. let e = rw (network_addr_lem k, network_addr_lem l) at same in networks (ground arith),
)

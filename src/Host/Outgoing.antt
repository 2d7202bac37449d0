-- ===== src/Host/Outgoing.antt =====
-- The way out of a host, in src/Networking/E_Host.cpp: the branch of sendPacketToModule for "Host",
-- and sendPacket. `none` is a failed assertion or an address that is missing.
use kensv.Prelude.{
  ℕ, zero, suc, ◌+◌, ◌≤◌, ◌<◌, ◌≡◌, ◌≢◌, refl, subst, ◌∙◌, ◌==◌, inl, inr, ◌⊎◌, Bool, true, false,
  Option, none, some, List, length, take, drop, ltb, if◌then◌else◌, arith, Bool-cases, Option-cases,
}
use kensv.Prelude.Maybe.{◌>>=◌, ◌>>◌, assert}
use kensv.Packet.{Packet}
use kensv.RoutingInfo.{RoutingInfo, same_bytes, get_mac_addr}
use kensv.Ipv4.{read_bytes}
use kensv.Ipv4.Header.{read_then}

-- The loop over the ports, from `k` on with `n` to go: the first port whose address is `my_mac`, or
-- port 0.
unfoldable pub select_port : (k n : ℕ) → (my_mac : List ℕ) → RoutingInfo → Option ℕ
select_port k zero my_mac r = some 0
select_port k (suc n) my_mac r =
    let rest = select_port (k + 1) n my_mac r in
    get_mac_addr k r >>= λ port_mac. if same_bytes my_mac port_mac then some k else rest

-- `sendPacket`: the wire that the packet goes to at once, or none if the host has been cleaned up.
unfoldable pub send_packet :
    (port_index : ℕ) → (port_count : ℕ) → (running : Bool) → Option (Option ℕ)
send_packet port_index port_count running =
    assert (ltb port_index port_count) >> some (if running then some port_index else none)

-- The index of the port through which the packet leaves.
unfoldable pub send_packet_to_host :
    Packet → (port_count : ℕ) → (running : Bool) → RoutingInfo → Option (Option ℕ)
send_packet_to_host p port_count running r = do
  my_mac ← read_bytes 6 6 p
  selected_port ← select_port 0 port_count my_mac r
  send_packet selected_port port_count running

-- Whether the address of the port is the given one.
unfoldable pub owns : ℕ → List ℕ → RoutingInfo → Bool
owns k mac r = elim (get_mac_addr k r) [ none ↦ false | some m ↦ same_bytes mac m ]

-- The first port from `k` on, below `k + n`, that has the address, or port 0 if there is none.
abbrev pub IsFirst : (k n : ℕ) → List ℕ → RoutingInfo → ℕ → Type 0
IsFirst k n mac r port =
    ((k ≤ port)
      × (port < k + n)
      × (owns port mac r ≡ true)
      × ((j : ℕ) → k ≤ j → j < port → owns j mac r ≡ false))
    ⊎ ((port ≡ 0) × ((j : ℕ) → k ≤ j → j < k + n → owns j mac r ≡ false))

later :
    (k n : ℕ) (mac : List ℕ) (r : RoutingInfo) (port : ℕ)
    → owns k mac r ≡ false
    → IsFirst (k + 1) n mac r port
    → IsFirst k (suc n) mac r port
later k n mac r port not_own (inl (from, below, own, before)) = inl (
  omega arith,
  omega arith,
  own,
  λ j ge lt. elim (Bool-cases (k == j)) [
    | inl same ↦ subst (λ j. owns j mac r ≡ false) (ground arith) not_own
    | inr differs ↦ before j (ground arith) lt
  ],
)
later k n mac r port not_own (inr (zero_port, no_one)) = inr (
  zero_port,
  λ j ge lt. elim (Bool-cases (k == j)) [
    | inl same ↦ subst (λ j. owns j mac r ≡ false) (ground arith) not_own
    | inr differs ↦ no_one j (ground arith) (omega arith)
  ],
)

port-lt :
    (n : ℕ) (mac : List ℕ) (r : RoutingInfo) (port : ℕ)
    → 0 < n
    → IsFirst 0 n mac r port
    → ltb port n ≡ true
port-lt n mac r port some_port (inl (from, below, own, before)) = ground arith
port-lt n mac r port some_port (inr (zero_port, no_one)) = ground arith

-- The loop ends with the first port from `k` on that has the given
-- address, or with port 0 if no port of them has it.
select_port-IsFirst :
    (k n : ℕ) (mac : List ℕ) (r : RoutingInfo)
    → ((j : ℕ) → k ≤ j → j < k + n → get_mac_addr j r ≢ none)
    → (port : ℕ) × (select_port k n mac r ≡ some port) × IsFirst k n mac r port
unfolding select_port owns
select_port-IsFirst k zero mac r known = (0, refl, inr (refl, λ j from below. absurd (omega arith)))
select_port-IsFirst k (suc n) mac r known = elim (Option-cases (get_mac_addr k r)) [
  | inl missing ↦ absurd (known k (omega arith) (omega arith) missing)
  | inr (m, found) ↦
      let own : owns k mac r ≡ same_bytes mac m = rw (found, owns) refl in
      elim (Bool-cases (same_bytes mac m)) [
        | inl same ↦ (
          k,
          rw (found, same) refl,
          inl (omega arith, omega arith, own ∙ same, λ j from below. absurd (omega arith)),
        )
        | inr other ↦
            let (port, selected, first) =
              select_port-IsFirst (k + 1) n mac r
                (λ j from below. known j (omega arith) (omega arith)) in
            (port, rw (found, other) selected, later k n mac r port (own ∙ other) first)
      ]
]

-- In a host with a port, of which every port has an address, a packet of at least twelve bytes ends
-- in `sendPacket` through the first port that has the packet's source address, or through port 0 if
-- no port has it; it leaves if the host is running, and is dropped if it is not.
pub send_packet_to_host-IsFirst :
    (p : Packet) (n : ℕ) (running : Bool) (r : RoutingInfo)
    → 12 ≤ length p.buffer
    → 0 < n
    → ((j : ℕ) → j < n → get_mac_addr j r ≢ none)
    → (port : ℕ) × (send_packet_to_host p n running r ≡ some (if running then some port else none))
      × IsFirst 0 n (take 6 (drop 6 p.buffer)) r port
unfolding send_packet_to_host send_packet
send_packet_to_host-IsFirst p n running r room some_port known =
    let (port, selected, first) =
      select_port-IsFirst 0 n (take 6 (drop 6 p.buffer)) r
        (λ j from below. known j (omega arith)) in
    let is_port : ltb port n ≡ true = port-lt n (take 6 (drop 6 p.buffer)) r port some_port first in
    (port, read_then 6 6 p _ room ∙ rw (selected, is_port) refl, first)

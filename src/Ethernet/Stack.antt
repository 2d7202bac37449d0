-- ===== src/Ethernet/Stack.antt =====
-- The way of a datagram through the stacks of two hosts.
use Prim.Native.String.{String}
use kensv.Prelude.{
  ℕ, ◌+◌, ◌/◌, ◌%◌, ◌^◌, ◌≤◌, ◌<◌, ◌≡◌, refl, ap, ◌∙◌, false, some, List, [], ◌∷◌, ◌++◌, length,
  take, drop, All, All-take, All-drop, length-take, length-drop, arith,
}
use kensv.NetworkUtil.{one_sum}
use kensv.NetworkUtil.Checksum.{IsByte}
use kensv.Packet.{Packet}
use kensv.RoutingInfo.{RoutingInfo, get_mac_addr, get_arp_table, get_routing_table}
use kensv.Ipv4.{Output}
use kensv.Ipv4
use kensv.Ipv4.Header.{
  sent_sum, header, length_field, checksum_for, sent_buffer, transmit_lem, receive_lem, write_then,
  read_then, byte_then, upper_module,
}
use kensv.Ethernet.{is_broadcast, address, transmit, packet_arrived}

-- Addressing a packet replaces its first twelve bytes.
address_lem :
    (dst src : List ℕ) (i : ℕ) (buffer : List ℕ)
    → length dst ≡ 6
    → length src ≡ 6
    → 12 ≤ length buffer
    → address (some src) (some dst) (record { buffer = buffer; packet_id = i })
      ≡ some (some ("Host", record { buffer = dst ++ (src ++ drop 12 buffer); packet_id = i }))
unfolding address
address_lem (d0 ∷ d1 ∷ d2 ∷ d3 ∷ d4 ∷ d5 ∷ []) (s0 ∷ s1 ∷ s2 ∷ s3 ∷ s4 ∷ s5 ∷ []) i
      (b0 ∷ b1 ∷ b2 ∷ b3 ∷ b4 ∷ b5 ∷ b6 ∷ b7 ∷ b8 ∷ b9 ∷ b10 ∷ b11 ∷ rest) hd hs h =
    write_then 0 _ _ _ (omega arith) ∙ write_then 6 _ _ _ (omega arith)
address_lem _ _ i _ hd hs h = absurd (omega arith)

-- Where the next hop of a destination is known: the port of its route has a hardware address, and
-- the destination is in the ARP table.
pub record IsReachable (r : RoutingInfo) (dst_ip src dst : List ℕ) : Type 0 where
  pub port : ℕ
  pub unicast : is_broadcast dst_ip ≡ false
  pub route : get_routing_table dst_ip r ≡ some port
  pub source : get_mac_addr port r ≡ some src
  pub target : get_arp_table dst_ip r ≡ some dst
  pub source_size : length src ≡ 6
  pub target_size : length dst ≡ 6

-- A unicast packet with a known next hop leaves with both hardware addresses and the ethertype.
pub transmit-unicast :
    (r : RoutingInfo) (i : ℕ) (buffer src dst : List ℕ)
    → 34 ≤ length buffer
    → IsReachable r (take 4 (drop 30 buffer)) src dst
    → transmit r (record { buffer = buffer; packet_id = i })
      ≡ some (
          some (
            "Host",
            record { buffer = dst ++ (src ++ (0x08 ∷ 0x00 ∷ drop 14 buffer)); packet_id = i },
          ))
unfolding transmit
transmit-unicast r i
      (b0 ∷ b1 ∷ b2 ∷ b3 ∷ b4 ∷ b5 ∷ b6 ∷ b7 ∷ b8 ∷ b9 ∷ b10 ∷ b11 ∷ b12 ∷ b13 ∷ b14 ∷ b15 ∷ b16
        ∷ b17 ∷ b18 ∷ b19 ∷ b20 ∷ b21 ∷ b22 ∷ b23 ∷ b24 ∷ b25 ∷ b26 ∷ b27 ∷ b28 ∷ b29 ∷ b30 ∷ b31
        ∷ b32 ∷ b33 ∷ rest)
      src dst h k =
    write_then 12 _ _ _ (omega arith)
    ∙ write_then 13 _ _ _ (omega arith)
    ∙ read_then 30 4 _ _ (omega arith)
    ∙ rw (k.unicast, k.route, k.source, k.target)
        (address_lem dst src i _ k.target_size k.source_size (omega arith))
transmit-unicast r i _ src dst h k = absurd (omega arith)

-- The layers above IPv4 that it knows, by the names of their modules.
pub data Upper : Type 0 where
  tcp udp ospf : Upper

abbrev pub name : Upper → String
name tcp = "TCP"
name udp = "UDP"
name ospf = "OSPF"

abbrev pub number : Upper → ℕ
number tcp = 0x06
number udp = 0x11
number ospf = 0x59

transmit-upper :
    (u : Upper) (p : Packet) (id : ℕ)
    → Ipv4.packet_arrived (name u) p id ≡ Ipv4.transmit (number u) id p
unfolding Ipv4.packet_arrived
transmit-upper tcp p id = refl
transmit-upper udp p id = refl
transmit-upper ospf p id = refl

upper_module-number : (u : Upper) (p : Packet) → upper_module (number u) p ≡ some (name u, p)
upper_module-number tcp p = refl
upper_module-number udp p = refl
upper_module-number ospf p = refl

-- What is sent, behind the Ethernet header, behind the checksum and from the destination on.
sent_parts :
    (proto id : ℕ) (buffer : List ℕ)
    → 34 ≤ length buffer
    → let size = length_field buffer in
      let addresses = take 8 (drop 26 buffer) in
      let checksum = checksum_for proto id size addresses in
      (drop 14 (sent_buffer proto id buffer)
        ≡ header proto id size (checksum / 2 ^ 8) (checksum % 2 ^ 8) addresses ++ drop 34 buffer)
      × (take 4 (drop 30 (sent_buffer proto id buffer)) ≡ take 4 (drop 30 buffer))
      × (34 ≤ length (sent_buffer proto id buffer))
sent_parts proto id
      (b0 ∷ b1 ∷ b2 ∷ b3 ∷ b4 ∷ b5 ∷ b6 ∷ b7 ∷ b8 ∷ b9 ∷ b10 ∷ b11 ∷ b12 ∷ b13 ∷ b14 ∷ b15 ∷ b16
        ∷ b17 ∷ b18 ∷ b19 ∷ b20 ∷ b21 ∷ b22 ∷ b23 ∷ b24 ∷ b25 ∷ b26 ∷ b27 ∷ b28 ∷ b29 ∷ b30 ∷ b31
        ∷ b32 ∷ b33 ∷ rest)
      h =
    (refl, refl, omega arith)
sent_parts proto id _ h = absurd (omega arith)

-- A host receives a packet whose twelve address bytes are followed by a checked IPv4 datagram.
arrive_lem :
    (r : RoutingInfo) (i proto id size c c' next : ℕ) (dst src addresses rest : List ℕ)
    → length dst ≡ 6
    → length src ≡ 6
    → length addresses ≡ 8
    → one_sum (header proto id size c c' addresses) ≡ 0xFFFF
    → let p : Packet = record {
      buffer = dst ++ (src ++ (0x08 ∷ 0x00 ∷ (header proto id size c c' addresses ++ rest)));
      packet_id = i;
    } in
      (packet_arrived r "Host" p ≡ some (some ("IPv4", p)))
      × (Ipv4.packet_arrived "Ethernet" p next ≡ some (next, upper_module proto p))
unfolding packet_arrived Ipv4.packet_arrived
arrive_lem r i proto id size c c' next (d0 ∷ d1 ∷ d2 ∷ d3 ∷ d4 ∷ d5 ∷ [])
      (s0 ∷ s1 ∷ s2 ∷ s3 ∷ s4 ∷ s5 ∷ []) addresses rest hd hs ha sum =
    (
      byte_then 12 _ 0x08 _ _ (omega arith) refl ∙ byte_then 13 _ 0x00 _ _ (omega arith) refl,
      rw (
          receive_lem i d0 d1 d2 d3 d4 d5 s0 s1 s2 s3 s4 s5 proto id size c c' addresses rest ha
            sum),
    )
arrive_lem r i proto id size c c' next _ _ addresses rest hd hs ha sum = absurd (omega arith)

arrived_rest :
    (proto id size c c' : ℕ) (dst src buffer : List ℕ)
    → length dst ≡ 6
    → length src ≡ 6
    → 34 ≤ length buffer
    → drop 26 (
        dst
        ++ (src
            ++ (0x08
                ∷ 0x00
                ∷ (header proto id size c c' (take 8 (drop 26 buffer)) ++ drop 34 buffer))))
      ≡ drop 26 buffer
arrived_rest proto id size c c' (d0 ∷ d1 ∷ d2 ∷ d3 ∷ d4 ∷ d5 ∷ [])
      (s0 ∷ s1 ∷ s2 ∷ s3 ∷ s4 ∷ s5 ∷ [])
      (b0 ∷ b1 ∷ b2 ∷ b3 ∷ b4 ∷ b5 ∷ b6 ∷ b7 ∷ b8 ∷ b9 ∷ b10 ∷ b11 ∷ b12 ∷ b13 ∷ b14 ∷ b15 ∷ b16
        ∷ b17 ∷ b18 ∷ b19 ∷ b20 ∷ b21 ∷ b22 ∷ b23 ∷ b24 ∷ b25 ∷ b26 ∷ b27 ∷ b28 ∷ b29 ∷ b30 ∷ b31
        ∷ b32 ∷ b33 ∷ rest)
      hd hs h =
    refl
arrived_rest proto id size c c' _ _ _ hd hs h = absurd (omega arith)

source_address :
    (dst src rest : List ℕ)
    → length dst ≡ 6
    → length src ≡ 6
    → take 6 (drop 6 (dst ++ (src ++ rest))) ≡ src
source_address (d0 ∷ d1 ∷ d2 ∷ d3 ∷ d4 ∷ d5 ∷ []) (s0 ∷ s1 ∷ s2 ∷ s3 ∷ s4 ∷ s5 ∷ []) rest hd hs =
    refl
source_address _ _ rest hd hs = absurd (omega arith)

target_address : (dst rest : List ℕ) → length dst ≡ 6 → take 6 (dst ++ rest) ≡ dst
target_address (d0 ∷ d1 ∷ d2 ∷ d3 ∷ d4 ∷ d5 ∷ []) rest hd = refl
target_address _ rest hd = absurd (omega arith)

-- The same bytes under another id.
abbrev pub copy : ℕ → Packet → Packet
copy i p = record p { packet_id = i }

number-lt : (u : Upper) → number u < 2 ^ 8
number-lt tcp = omega arith
number-lt udp = omega arith
number-lt ospf = omega arith

-- A datagram of TCP, UDP or OSPF with room for its headers, made of bytes, with an identification
-- below 2 ^ 16 and a next hop that is known, passes IPv4 and Ethernet of the sending host, and
-- Ethernet and IPv4 of a receiving host hand every copy of it, its checksum accepted, to the module of the same
-- name; the addresses and the payload arrive as they were, in a frame with the hardware addresses of
-- the sender and of the next hop.
pub delivered :
    (u : Upper) (r r' : RoutingInfo) (p : Packet) (id next : ℕ) (src dst : List ℕ)
    → 34 ≤ length p.buffer
    → All IsByte p.buffer
    → id < 2 ^ 16
    → IsReachable r (take 4 (drop 30 p.buffer)) src dst
    → (q : Packet) × (q' : Packet) × (Ipv4.packet_arrived (name u) p id
        ≡ some ((id + 1) % 2 ^ 16, some ("Ethernet", q)))
      × (packet_arrived r "IPv4" q ≡ some (some ("Host", q')))
      × ((i : ℕ) → packet_arrived r' "Host" (copy i q') ≡ some (some ("IPv4", copy i q')))
      × ((i : ℕ)
          → Ipv4.packet_arrived "Ethernet" (copy i q') next ≡ some (next, some (name u, copy i q')))
      × (drop 26 q'.buffer ≡ drop 26 p.buffer)
      × (take 6 (drop 6 q'.buffer) ≡ src)
      × (take 6 q'.buffer ≡ dst)
unfolding packet_arrived
delivered u r r' p id next src dst room bytes small k =
    let addresses = take 8 (drop 26 p.buffer) in
    let size : ℕ = length_field p.buffer in
    let checksum : ℕ = checksum_for (number u) id size addresses in
    let datagram' =
      header (number u) id size (checksum / 2 ^ 8) (checksum % 2 ^ 8) addresses
      ++ drop 34 p.buffer in
    let parts = sent_parts (number u) id p.buffer room in
    let q : Packet = record p { buffer = sent_buffer (number u) id p.buffer } in
    let q' : Packet = record p { buffer = dst ++ (src ++ (0x08 ∷ 0x00 ∷ datagram')) } in
    let len : length addresses ≡ 8 =
      omega (arith, length-take 8 (drop 26 p.buffer), length-drop 26 p.buffer) in
    let sum =
      sent_sum (number u) id size addresses (number-lt u) small (omega arith) len
        (All-take IsByte 8 _ (All-drop IsByte 26 p.buffer bytes)) in
    let arrives = λ (i : ℕ).
      arrive_lem r' i (number u) id size _ _ next dst src addresses (drop 34 p.buffer) k.target_size
        k.source_size len sum in
    (
      q,
      q',
      rw (transmit-upper u p id) (transmit_lem (number u) id p room),
      transmit-unicast r p.packet_id q.buffer src dst parts.2 (rw parts.1 k)
          ∙ ap
              (λ bs. some (some ("Host", record p { buffer = dst ++ (src ++ (0x08 ∷ 0x00 ∷ bs)) })))
              parts.0,
      λ i. (arrives i).0,
      λ i. (arrives i).1 ∙ ap (λ out. some (next, out)) (upper_module-number u (copy i q')),
      arrived_rest (number u) id size _ _ dst src p.buffer k.target_size k.source_size room,
      source_address dst src (0x08 ∷ 0x00 ∷ datagram') k.target_size k.source_size,
      target_address dst (src ++ (0x08 ∷ 0x00 ∷ datagram')) k.target_size,
    )

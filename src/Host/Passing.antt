-- ===== src/Host/Passing.antt =====
-- The way of a datagram through the messages of two hosts.
use Prim.Native.String.{String}
use text.Mathlib.Text.{◌==◌ as str_eq}
use kensv.Prelude.{
  ℕ, ◌+◌, ◌%◌, ◌^◌, ◌≤◌, ◌<◌, ◌≡◌, ◌≢◌, refl, ap, subst, true, false, Option, none, some, List, [],
  ◌∷◌, length, take, drop, All, length-take, length-drop, arith,
}
use kensv.Packet.{Packet}
use kensv.NetworkUtil.Checksum.{IsByte}
use kensv.RoutingInfo.{get_mac_addr}
use kensv.Ipv4
use kensv.Ethernet
use kensv.Ethernet.Stack.{IsReachable, Upper, tcp, udp, ospf, name, copy, delivered}
use kensv.Host.Outgoing.{IsFirst, send_packet_to_host-IsFirst}
use kensv.Host.Modules.{
  Node, Effect, passes, leaves, Modules, Others, has_module, send_packet_to_module, send_all,
  module_packet_arrived, packet_pass_received, wire_received, value_or,
}

-- A host that runs, with the modules of the library, and with ports that all have an address.
pub record Works (n : Node) : Type 0 where
  pub runs : n.running ≡ true
  pub has_ethernet : has_module "Ethernet" n.module_names ≡ true
  pub has_ipv4 : has_module "IPv4" n.module_names ≡ true
  pub some_port : 0 < n.port_count
  pub addressed : (j : ℕ) → j < n.port_count → get_mac_addr j n.routing ≢ none

sends_to :
    (n : Node) (from : Option String) (to : String) (p : Packet)
    → str_eq to "Host" ≡ false
    → has_module to n.module_names ≡ true
    → send_packet_to_module n from to p
      ≡ some (passes (record { from = from; to = to; packet = p }) ∷ [])
unfolding send_packet_to_module
sends_to n from to p not_host there = rw (not_host, there) refl

-- A packet for "Host" leaves through the first port with its source address.
leaves_by :
    (n : Node) (from : Option String) (p : Packet)
    → Works n
    → 12 ≤ length p.buffer
    → (port : ℕ) × (send_packet_to_module n from "Host" p ≡ some (leaves port p ∷ []))
      × IsFirst 0 n.port_count (take 6 (drop 6 p.buffer)) n.routing port
unfolding send_packet_to_module
leaves_by n from p works room =
    let (port, sent, first) =
      send_packet_to_host-IsFirst p n.port_count n.running n.routing room works.some_port
        works.addressed in
    (port, rw (sent, works.runs) refl, first)

-- A frame from a wire is passed to the Ethernet module.
wire_passes :
    (n : Node) (p : Packet)
    → Works n
    → wire_received n p ≡ some (passes (record { from = none; to = "Ethernet"; packet = p }) ∷ [])
unfolding wire_received
wire_passes n p works =
    rw works.runs
      (rw (sends_to (record n { running = true }) none "Ethernet" p refl works.has_ethernet) refl)

module _ {ℓ} {S : Type ℓ} (others : Others S) where
  ipv4_passes :
      (n : Node) (from to : String) (p q : Packet) (w : Modules S) (id : ℕ)
      → Works n
      → str_eq to "Host" ≡ false
      → has_module to n.module_names ≡ true
      → Ipv4.packet_arrived from p w.identification ≡ some (id, some (to, q))
      → packet_pass_received others n (record { from = some from; to = "IPv4"; packet = p }) w
        ≡ some (
          record w { identification = id },
          passes (record { from = some "IPv4"; to = to; packet = q }) ∷ [],
        )
  unfolding packet_pass_received module_packet_arrived send_all
  ipv4_passes n from to p q w id works not_host there run =
      rw (works.runs, works.has_ipv4, run)
        (rw (sends_to (record n { running = true }) (some "IPv4") to q not_host there) refl)

  ethernet_passes :
      (n : Node) (from : Option String) (to : String) (p q : Packet) (w : Modules S) (e : Effect)
      → Works n
      → Ethernet.packet_arrived n.routing (value_or from "Host") p ≡ some (some (to, q))
      → send_packet_to_module n (some "Ethernet") to q ≡ some (e ∷ [])
      → packet_pass_received others n (record { from = from; to = "Ethernet"; packet = p }) w
        ≡ some (w, e ∷ [])
  unfolding packet_pass_received module_packet_arrived send_all
  ethernet_passes n from to p q w e works run sent =
      rw (works.has_ethernet, run, sent, works.runs) refl

name_not_host : (u : Upper) → str_eq (name u) "Host" ≡ false
name_not_host tcp = refl
name_not_host udp = refl
name_not_host ospf = refl

frame_size :
    (p : Packet) (src : List ℕ)
    → take 6 (drop 6 p.buffer) ≡ src
    → length src ≡ 6
    → 12 ≤ length p.buffer
frame_size p src own size =
    omega (arith, length-take 6 (drop 6 p.buffer), length-drop 6 p.buffer, ap length own)

-- Two hosts that run, with the modules of the library, and with ports that all have an address; the second
-- has a module for the layer above. A datagram of TCP, UDP or OSPF, as in `Ethernet.Stack.delivered`,
-- that this layer passes to "IPv4" of the first host goes, in two messages, through its modules to the first
-- port that has the hardware address of the route, or to port 0. When a copy of its frame, whatever its id, arrives at the
-- second host from a wire, it goes through the modules in two messages, and a third is for the module of the
-- layer above, with the addresses and the payload unchanged, in a frame for the hardware address of the next hop. The other modules do not matter.
pub host_to_host {ℓ} :
    {S : Type ℓ} (others : Others S) (u : Upper) (n n' : Node) (p : Packet) (w w' : Modules S)
    (src dst : List ℕ)
    → Works n
    → Works n'
    → has_module (name u) n'.module_names ≡ true
    → 34 ≤ length p.buffer
    → All IsByte p.buffer
    → w.identification < 2 ^ 16
    → IsReachable n.routing (take 4 (drop 30 p.buffer)) src dst
    → (q : Packet) × (q' : Packet) × (port : ℕ) × (packet_pass_received others n
          (record { from = some (name u); to = "IPv4"; packet = p })
          w
        ≡ some (
          record w { identification = (w.identification + 1) % 2 ^ 16 },
          passes (record { from = some "IPv4"; to = "Ethernet"; packet = q }) ∷ [],
        ))
      × ((v : Modules S)
          → packet_pass_received others n
              (record { from = some "IPv4"; to = "Ethernet"; packet = q })
              v
            ≡ some (v, leaves port q' ∷ []))
      × IsFirst 0 n.port_count src n.routing port
      × ((i : ℕ)
          → (wire_received n' (copy i q')
              ≡ some (passes (record { from = none; to = "Ethernet"; packet = copy i q' }) ∷ []))
            × (packet_pass_received others n'
                  (record { from = none; to = "Ethernet"; packet = copy i q' })
                  w'
                ≡ some (
                  w',
                  passes (record { from = some "Ethernet"; to = "IPv4"; packet = copy i q' }) ∷ [],
                ))
            × (packet_pass_received others n'
                  (record { from = some "Ethernet"; to = "IPv4"; packet = copy i q' })
                  w'
                ≡ some (
                  w',
                  passes (record { from = some "IPv4"; to = name u; packet = copy i q' }) ∷ [],
                )))
      × (drop 26 q'.buffer ≡ drop 26 p.buffer)
      × (take 6 q'.buffer ≡ dst)
host_to_host others u n n' p w w' src dst works works' above room bytes small k =
    let (q, q', down, out, arrives, up, same, own, to_dst) =
      delivered u n.routing n'.routing p w.identification w'.identification src dst room bytes small
        k in
    let (port, sent, first) =
      leaves_by n (some "Ethernet") q' works (frame_size q' src own k.source_size) in
    (
      q,
      q',
      port,
      ipv4_passes others n (name u) "Ethernet" p q w _ works refl works.has_ethernet down,
      λ v. ethernet_passes others n (some "IPv4") "Host" q q' v _ works out sent,
      subst (λ mac. IsFirst 0 n.port_count mac n.routing port) own first,
      λ i. (
        wire_passes n' (copy i q') works',
        ethernet_passes others n' none "IPv4" (copy i q') (copy i q') w' _ works' (arrives i)
            (sends_to n' (some "Ethernet") "IPv4" (copy i q') refl works'.has_ipv4),
        ipv4_passes others n' "Ethernet" (name u) (copy i q') (copy i q') w' _ works'
            (name_not_host u) above (up i),
      ),
      same,
      to_dst,
    )

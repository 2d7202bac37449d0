-- ===== src/Testbed/Ways.antt =====
-- The ways between the two hosts of app/kens/testenv.hpp, and what is delivered on them.
use Prim.Native.String.{String}
use kensv.Prelude.{
  ℕ, zero, suc, ◌^◌, ◌≤◌, ◌<◌, ◌≡◌, ◌≢◌, refl, Bool, true, false, not, ◌&&◌, Option, none, some,
  List, [], ◌∷◌, length, take, drop, All, ◌==◌, arith,
}
use kensv.Prelude.Table.{lookup}
use kensv.Prelude.NumSet.{member}
use kensv.NetworkUtil.{array_to_uint64, array_to_uint64_from}
use kensv.NetworkUtil.Checksum.{IsByte}
use kensv.Packet.{Packet, Allocator}
use kensv.RoutingInfo.{
  RoutingInfo, get_mac_addr, find_mac, get_ip_addr, find_ip, get_arp_table, find_arp, same_bytes,
  get_routing_table, select_route, entry_matches, parts_match, bytes_match, full_mask,
}
use kensv.Ethernet.{is_broadcast}
use kensv.Wire.{destination, connected}
use kensv.Switch.{Switch, is_target}
use kensv.Switch.Forward.{keep, Ready}
use kensv.Host.Outgoing.{owns}
use kensv.Host.Install.{Installed}
use kensv.Host.Modules.{Node, Modules, Others, has_module}
use kensv.Host.Passing.{Works}
use kensv.Testbed.{Testbed, node_of, switch_of}
use kensv.Testbed.TwoHosts.{TestEnv, ip1, ip1_2, ip2, ip2_2, mac1, mac1_2, mac2, mac2_2}
use kensv.Testbed.Delivery.{Passage, Delivered, wire_of, leads_to, path_delivers}
use kensv.Testbed.Reach.{Allocates, set_up, env, bed, learned, tables_1, tables_2, set_up_lem}

-- Towards the first or the second address of a host.
pub data Way : Type 0 where
  to_ip1 to_ip1_2 to_ip2 to_ip2_2 : Way

abbrev pub from : Way → TestEnv → ℕ
from to_ip1 e = e.host2
from to_ip1_2 e = e.host2
from to_ip2 e = e.host1
from to_ip2_2 e = e.host1

abbrev pub to : Way → TestEnv → ℕ
to to_ip1 e = e.host1
to to_ip1_2 e = e.host1
to to_ip2 e = e.host2
to to_ip2_2 e = e.host2

abbrev pub address : Way → List ℕ
address to_ip1 = ip1
address to_ip1_2 = ip1_2
address to_ip2 = ip2
address to_ip2_2 = ip2_2

-- A host with two ports that have addresses.
node-Works :
    (names : List String) (r : RoutingInfo) (m m' : List ℕ)
    → has_module "Ethernet" names ≡ true
    → has_module "IPv4" names ≡ true
    → get_mac_addr 0 r ≡ some m
    → get_mac_addr 1 r ≡ some m'
    → Works (record { module_names = names; port_count = 2; running = true; routing = r })
node-Works names r m m' ethernet ipv4 first second = record {
  runs = refl;
  has_ethernet = ethernet;
  has_ipv4 = ipv4;
  some_port = omega arith;
  addressed = addressed;
}
  where
    addressed : (j : ℕ) → j < 2 → get_mac_addr j r ≢ none
    addressed zero below e = cc
    addressed (suc zero) below e = cc
    addressed (suc (suc j)) below e = absurd (omega arith)

abbrev host : RoutingInfo → Installed → Node
host r i = record { module_names = i.host_modules; port_count = 2; running = true; routing = r }

abbrev switch : Switch
switch = record { ports = 4 ∷ 5 ∷ 6 ∷ 7 ∷ []; mac_table = learned; unreliable = false }

-- The entries of the switch that a frame for an address leaves by, when it comes from a wire.
abbrev leaving : (in_wire : ℕ) → (dst : List ℕ) → List ℕ
leaving in_wire dst =
    keep (λ w. not (in_wire == w) && is_target (array_to_uint64 dst) w switch) switch.ports

module _ (second : Bool) (target adversary : Installed → Option Installed) (at : Allocates target)
    (aa : Allocates adversary) where
  abbrev t : Testbed
  t = bed second at.after aa.after

  tables_1-Works : Works (host tables_1 at.after)
  unfolding get_mac_addr find_mac
  tables_1-Works =
      node-Works at.after.host_modules tables_1 mac1 mac1_2 at.keeps_ethernet at.keeps_ipv4 refl
        refl

  tables_2-Works : Works (host tables_2 aa.after)
  unfolding get_mac_addr find_mac
  tables_2-Works =
      node-Works aa.after.host_modules tables_2 mac2 mac2_2 aa.keeps_ethernet aa.keeps_ipv4 refl
        refl

  from_1 :
      (out_wire to_port : ℕ) (ip dst : List ℕ)
      → get_routing_table ip tables_1 ≡ some 0
      → get_arp_table ip tables_1 ≡ some dst
      → is_broadcast ip ≡ false
      → length dst ≡ 6
      → leaving 4 dst ≡ out_wire ∷ []
      → leads_to 3 out_wire t ≡ some 2
      → get_ip_addr to_port tables_2 ≡ some ip
      → wire_of 2 to_port t ≡ some out_wire
      → Passage t 1 2 ip
  unfolding node_of switch_of lookup wire_of leads_to destination connected owns get_mac_addr
      find_mac same_bytes
  from_1 out_wire to_port ip dst route target unicast size targets goes_to has_ip enters_by =
      record {
        sender = host tables_1 at.after;
        receiver = host tables_2 aa.after;
        switch = switch;
        switch_id = 3;
        in_wire = 4;
        out_wire = out_wire;
        src = mac1;
        dst = dst;
        at_sender = refl;
        at_receiver = refl;
        sender_works = tables_1-Works;
        receiver_works = tables_2-Works;
        has_tcp = aa.has_tcp;
        reachable = record {
          port = 0;
          unicast = unicast;
          route = route;
          source = refl;
          target = target;
          source_size = refl;
          target_size = size;
        };
        own = refl;
        leaves_by = refl;
        comes_to = refl;
        at_switch = refl;
        four_ports = refl;
        reliable = refl;
        targets = targets;
        goes_to = goes_to;
        to_port = to_port;
        has_ip = has_ip;
        enters_by = enters_by;
      }

  from_2 :
      (out_wire to_port : ℕ) (ip dst : List ℕ)
      → get_routing_table ip tables_2 ≡ some 0
      → get_arp_table ip tables_2 ≡ some dst
      → is_broadcast ip ≡ false
      → length dst ≡ 6
      → leaving 6 dst ≡ out_wire ∷ []
      → leads_to 3 out_wire t ≡ some 1
      → get_ip_addr to_port tables_1 ≡ some ip
      → wire_of 1 to_port t ≡ some out_wire
      → Passage t 2 1 ip
  unfolding node_of switch_of lookup wire_of leads_to destination connected owns get_mac_addr
      find_mac same_bytes
  from_2 out_wire to_port ip dst route target unicast size targets goes_to has_ip enters_by =
      record {
        sender = host tables_2 aa.after;
        receiver = host tables_1 at.after;
        switch = switch;
        switch_id = 3;
        in_wire = 6;
        out_wire = out_wire;
        src = mac2;
        dst = dst;
        at_sender = refl;
        at_receiver = refl;
        sender_works = tables_2-Works;
        receiver_works = tables_1-Works;
        has_tcp = at.has_tcp;
        reachable = record {
          port = 0;
          unicast = unicast;
          route = route;
          source = refl;
          target = target;
          source_size = refl;
          target_size = size;
        };
        own = refl;
        leaves_by = refl;
        comes_to = refl;
        at_switch = refl;
        four_ports = refl;
        reliable = refl;
        targets = targets;
        goes_to = goes_to;
        to_port = to_port;
        has_ip = has_ip;
        enters_by = enters_by;
      }

  path : (way : Way) → Passage t (from way env) (to way env) (address way)
  unfolding wire_of get_ip_addr find_ip lookup leads_to destination connected get_arp_table find_arp
      same_bytes get_routing_table select_route entry_matches parts_match bytes_match full_mask
      is_broadcast keep is_target member array_to_uint64 array_to_uint64_from
  path to_ip1 = from_2 4 0 ip1 mac1 refl refl refl refl refl refl refl refl
  path to_ip1_2 = from_2 5 1 ip1_2 mac1_2 refl refl refl refl refl refl refl refl
  path to_ip2 = from_1 6 0 ip2 mac2 refl refl refl refl refl refl refl refl
  path to_ip2_2 = from_1 7 1 ip2_2 mac2_2 refl refl refl refl refl refl refl refl

-- TestEnv1, and TestEnv2 with a reliable switch, for any classes that are installed as "TCP", and any other
-- modules: SetUp fails no assertion, and builds a testbed in which every datagram that the "TCP" of one host
-- passes down for either address of the other, made of bytes and with room for its headers, with an identification below 2 ^ 16 and while packet ids are left for four
-- copies, leaves through port 0, comes to the switch, leaves it as one copy through the wire of the
-- port of the other host whose table entry is that address, and is passed up to the "TCP" of the other host, its addresses and its payload unchanged.
pub set_up_delivers {ℓ} :
    {S : Type ℓ} (second : Bool) (target adversary : Installed → Option Installed)
    (others : Others S) (way : Way) (p : Packet) (w w' : Modules S) (lost : ℕ → Bool)
    (a : Allocator)
    → Allocates target
    → Allocates adversary
    → 34 ≤ length p.buffer
    → All IsByte p.buffer
    → w.identification < 2 ^ 16
    → take 4 (drop 30 p.buffer) ≡ address way
    → Ready 4 a
    → (t : Testbed) × (e : TestEnv) × (set_up second target adversary ≡ some (t, e))
      × Delivered others t (from way e) (to way e) p w w' lost a
set_up_delivers second target adversary others way p w w' lost a at aa room bytes small addressed
      ready =
    let v = path second target adversary at aa way in
    (
      bed second at.after aa.after,
      env,
      set_up_lem second target adversary at.after aa.after at.adds aa.adds,
      path_delivers others (bed second at.after aa.after) (from way env) (to way env) (address way)
          v p w w' lost a room bytes small addressed ready,
    )

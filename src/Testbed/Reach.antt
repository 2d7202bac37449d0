-- ===== src/Testbed/Reach.antt =====
-- What TestEnv1 and TestEnv2 of app/kens/testenv.hpp build: each host reaches both addresses of the other.
use kensv.Prelude.{ℕ, ◌≡◌, refl, Bool, true, false, Option, some, List, [], ◌∷◌}
use kensv.Prelude.Table.{Table, lookup, assign, contains}
use kensv.Host.Install.{Installed}
use kensv.Host.Modules.{has_module}
use kensv.Prelude.NumSet.{insert, member}
use kensv.NetworkUtil.{array_to_uint64, array_to_uint64_from}
use kensv.RoutingInfo.{RoutingInfo, set_ip_addr, set_mac_addr, set_arp_table, set_routing_table}
use kensv.TimeUtil.{make_time, get_multiplier}
use kensv.Link.{Link, init, set_queue_size}
use kensv.Wire.{Wire}
use kensv.Wire
use kensv.Networking.{add_node, new_module_id, connect_wire}
use kensv.Networking
use kensv.Switch
use kensv.Host.Syscalls.{installed}
use kensv.Host.Install.{add_host_module, insert_name, insert_interface}
use kensv.Testbed.{
  Testbed, switch_of, all_of, add_host, add_switch, add_wire, at_tables, install, add_mac_entry,
  at_link,
}
use kensv.Testbed.TwoHosts.{
  TestEnv, ip1, ip1_2, ip2, ip2_2, mac1, mac1_2, mac2, mac2_2, set_up_1, set_up_2, wired,
}

-- The modules of a host before `allocate`.
abbrev pub libraries : Installed
libraries = record {
  host_modules = "IPv4" ∷ "Ethernet" ∷ [];
  timer_modules = "DefaultSyscall" ∷ [];
  interfaces = record { domain = 0; protocol = 0 } ∷ [];
}

-- `allocate` of a provider installs a class with the name "TCP" beside those that are there.
pub record Allocates (f : Installed → Option Installed) : Type 0 where
  pub after : Installed
  pub adds : f libraries ≡ some after
  pub keeps_ethernet : has_module "Ethernet" after.host_modules ≡ true
  pub keeps_ipv4 : has_module "IPv4" after.host_modules ≡ true
  pub has_tcp : has_module "TCP" after.host_modules ≡ true

-- The environment of one of the two, with a reliable switch.
abbrev pub set_up :
    (second : Bool) → (target adversary : Installed → Option Installed) → Option (Testbed × TestEnv)
set_up true target adversary = set_up_2 false target adversary
set_up false target adversary = set_up_1 target adversary

abbrev pub env : TestEnv
env = record {
  host1 = 1;
  host2 = 2;
  switch = 3;
  host1_port_1 = (0, 0);
  host1_port_2 = (1, 1);
  host2_port_1 = (0, 2);
  host2_port_2 = (1, 3);
}

abbrev line : (host : ℕ) → Wire
line host = record {
  connected_left = host;
  connected_right = 3;
  next_left = 0;
  next_right = 0;
  propagation_delay = 1000000;
  bps = 1000000000;
  limit_speed = true;
}

-- The tables of a host with two ports, and of the peer that both lead to.
abbrev pub tables_for : (mac mac_2 ip ip_2 peer_mac peer_mac_2 peer peer_2 : List ℕ) → RoutingInfo
tables_for mac mac_2 ip ip_2 peer_mac peer_mac_2 peer peer_2 = record {
  mac_vector = record { mac = mac; port = 0 } ∷ record { mac = mac_2; port = 1 } ∷ [];
  ip_vector = record { ip = ip; port = 0 } ∷ record { ip = ip_2; port = 1 } ∷ [];
  arp_vector = record { ip = peer; mac = peer_mac } ∷ record { ip = peer_2; mac = peer_mac_2 } ∷ [];
  route_vector =
      record { ip_mask = peer; prefix = 16; port = 0 }
      ∷ record { ip_mask = peer_2; prefix = 16; port = 1 }
      ∷ [];
}

abbrev pub tables_1 : RoutingInfo
tables_1 = tables_for mac1 mac1_2 ip1 ip1_2 mac2 mac2_2 ip2 ip2_2

abbrev pub tables_2 : RoutingInfo
tables_2 = tables_for mac2 mac2_2 ip2 ip2_2 mac1 mac1_2 ip1 ip1_2

abbrev pub learned : Table (List ℕ)
learned =
    (4, array_to_uint64 mac1 ∷ [])
    ∷ (5, array_to_uint64 mac1_2 ∷ [])
    ∷ (6, array_to_uint64 mac2 ∷ [])
    ∷ (7, array_to_uint64 mac2_2 ∷ [])
    ∷ []

abbrev link_of : (second : Bool) → Link
link_of true = record init { max_queue_length = 16 }
link_of false = init

-- What either environment is.
abbrev pub bed : (second : Bool) → (i₁ i₂ : Installed) → Testbed
bed second i₁ i₂ = record {
  network = record {
    next = 8;
    wires = (4, line 1) ∷ (5, line 1) ∷ (6, line 2) ∷ (7, line 2) ∷ [];
    ports = (1, 4 ∷ 5 ∷ []) ∷ (2, 6 ∷ 7 ∷ []) ∷ (3, 4 ∷ 5 ∷ 6 ∷ 7 ∷ []) ∷ [];
  };
  routing = (1, tables_1) ∷ (2, tables_2) ∷ [];
  installed = (1, i₁) ∷ (2, i₂) ∷ [];
  switches = (3, record { mac_table = learned; unreliable = false; link = link_of second }) ∷ [];
}

pub set_up_lem :
    (second : Bool) (target adversary : Installed → Option Installed) (i₁ i₂ : Installed)
    → target libraries ≡ some i₁
    → adversary libraries ≡ some i₂
    → set_up second target adversary ≡ some (bed second i₁ i₂, env)
unfolding wired set_up_1 set_up_2 all_of add_host add_switch add_wire at_tables install
    add_mac_entry at_link switch_of Networking.add_wire add_node new_module_id connect_wire
    Switch.add_mac_entry lookup assign contains insert member array_to_uint64 array_to_uint64_from
    set_mac_addr set_ip_addr set_arp_table set_routing_table set_queue_size add_host_module
    insert_name insert_interface installed has_module Wire.init make_time get_multiplier
set_up_lem true target adversary i₁ i₂ first second = rw (first, second) refl
set_up_lem false target adversary i₁ i₂ first second = rw (first, second) refl

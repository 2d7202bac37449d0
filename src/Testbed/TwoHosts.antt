-- ===== src/Testbed/TwoHosts.antt =====
-- SetUp of TestEnv1 and TestEnv2 of app/kens/testenv.hpp: two hosts, each with two wires to one
-- switch. The classes that `allocate` installs for "TCP" are arguments.
use kensv.Prelude.{ℕ, Bool, false, Option, some, List, [], ◌∷◌}
use kensv.Prelude.Maybe.{◌>>=◌}
use kensv.RoutingInfo.{set_ip_addr, set_mac_addr, set_arp_table, set_routing_table}
use kensv.TimeUtil.{msec, make_time}
use kensv.Link.{set_queue_size}
use kensv.Host.Install.{Installed, add_host_module}
use kensv.Testbed.{
  Testbed, blank, add_host, add_switch, add_wire, at_tables, install, add_mac_entry, at_link,
  ethernet, ipv4, all_of,
}

abbrev pub mac1 : List ℕ
mac1 = 0xBC ∷ 0xBC ∷ 0xBC ∷ 0xBC ∷ 0xBC ∷ 0xBC ∷ []

abbrev pub mac1_2 : List ℕ
mac1_2 = 0xCB ∷ 0xCB ∷ 0xCB ∷ 0xCB ∷ 0xCB ∷ 0xCB ∷ []

abbrev pub mac2 : List ℕ
mac2 = 0xCD ∷ 0xCD ∷ 0xCD ∷ 0xCD ∷ 0xCD ∷ 0xCD ∷ []

abbrev pub mac2_2 : List ℕ
mac2_2 = 0xDC ∷ 0xDC ∷ 0xDC ∷ 0xDC ∷ 0xDC ∷ 0xDC ∷ []

abbrev pub ip1 : List ℕ
ip1 = 192 ∷ 168 ∷ 0 ∷ 7 ∷ []

abbrev pub ip1_2 : List ℕ
ip1_2 = 192 ∷ 168 ∷ 0 ∷ 8 ∷ []

abbrev pub ip2 : List ℕ
ip2 = 10 ∷ 0 ∷ 1 ∷ 4 ∷ []

abbrev pub ip2_2 : List ℕ
ip2_2 = 10 ∷ 0 ∷ 1 ∷ 5 ∷ []

-- The modules, by id, and the ports of the four wires.
pub record TestEnv : Type 0 where
  pub host1 : ℕ
  pub host2 : ℕ
  pub switch : ℕ
  pub host1_port_1 : ℕ × ℕ
  pub host1_port_2 : ℕ × ℕ
  pub host2_port_1 : ℕ × ℕ
  pub host2_port_2 : ℕ × ℕ

-- The hosts, the switch and the wires.
unfoldable pub wired : (unreliable : Bool) → Option (Testbed × TestEnv)
wired unreliable = do
  (t₁, host1) ← add_host blank
  (t₂, host2) ← add_host t₁
  (t₃, switch) ← add_switch unreliable t₂
  (t₄, host1_port_1_left, host1_port_1_right) ←
      add_wire host1 switch (make_time 1 msec) 1000000000 t₃
  (t₅, host1_port_2_left, host1_port_2_right) ←
      add_wire host1 switch (make_time 1 msec) 1000000000 t₄
  (t₆, host2_port_1_left, host2_port_1_right) ←
      add_wire host2 switch (make_time 1 msec) 1000000000 t₅
  (t₇, host2_port_2_left, host2_port_2_right) ←
      add_wire host2 switch (make_time 1 msec) 1000000000 t₆
  some (
    t₇,
    record {
      host1 = host1;
      host2 = host2;
      switch = switch;
      host1_port_1 = (host1_port_1_left, host1_port_1_right);
      host1_port_2 = (host1_port_2_left, host1_port_2_right);
      host2_port_1 = (host2_port_1_left, host2_port_1_right);
      host2_port_2 = (host2_port_2_left, host2_port_2_right);
    },
  )

-- The tables of both hosts.
abbrev pub tables : TestEnv → List (Testbed → Option Testbed)
tables p =
    at_tables p.host1 (set_mac_addr mac1 p.host1_port_1.0)
    ∷ at_tables p.host1 (set_mac_addr mac1_2 p.host1_port_2.0)
    ∷ at_tables p.host1 (set_arp_table mac2 ip2)
    ∷ at_tables p.host1 (set_arp_table mac2_2 ip2_2)
    ∷ at_tables p.host1 (set_ip_addr ip1 p.host1_port_1.0)
    ∷ at_tables p.host1 (set_ip_addr ip1_2 p.host1_port_2.0)
    ∷ at_tables p.host1 (set_routing_table ip2 16 p.host1_port_1.0)
    ∷ at_tables p.host1 (set_routing_table ip2_2 16 p.host1_port_2.0)
    ∷ at_tables p.host2 (set_mac_addr mac2 p.host2_port_1.0)
    ∷ at_tables p.host2 (set_mac_addr mac2_2 p.host2_port_2.0)
    ∷ at_tables p.host2 (set_arp_table mac1 ip1)
    ∷ at_tables p.host2 (set_arp_table mac1_2 ip1_2)
    ∷ at_tables p.host2 (set_ip_addr ip2 p.host2_port_1.0)
    ∷ at_tables p.host2 (set_ip_addr ip2_2 p.host2_port_2.0)
    ∷ at_tables p.host2 (set_routing_table ip1 16 p.host2_port_1.0)
    ∷ at_tables p.host2 (set_routing_table ip1_2 16 p.host2_port_2.0)
    ∷ []

abbrev pub entries : TestEnv → List (Testbed → Option Testbed)
entries p =
    add_mac_entry p.switch p.host1_port_1.1 mac1
    ∷ add_mac_entry p.switch p.host1_port_2.1 mac1_2
    ∷ add_mac_entry p.switch p.host2_port_1.1 mac2
    ∷ add_mac_entry p.switch p.host2_port_2.1 mac2_2
    ∷ []

-- The modules of both hosts. initializeHostModule calls the class that `allocate` has installed.
abbrev pub modules :
    (target adversary : Installed → Option Installed) → TestEnv → List (Testbed → Option Testbed)
modules target adversary p =
    install p.host1 (add_host_module ethernet)
    ∷ install p.host2 (add_host_module ethernet)
    ∷ install p.host1 (add_host_module ipv4)
    ∷ install p.host2 (add_host_module ipv4)
    ∷ install p.host1 target
    ∷ install p.host2 adversary
    ∷ []

-- `SetUp` of TestEnv1.
unfoldable pub set_up_1 :
    (target adversary : Installed → Option Installed) → Option (Testbed × TestEnv)
set_up_1 target adversary = do
  (t, p) ← wired false
  t₁ ← all_of (tables p) t
  t₂ ← all_of (entries p) t₁
  t₃ ← all_of (modules target adversary p) t₂
  some (t₃, p)

-- `SetUp` of TestEnv2.
unfoldable pub set_up_2 :
    (unreliable : Bool)
    → (target adversary : Installed → Option Installed) → Option (Testbed × TestEnv)
set_up_2 unreliable target adversary = do
  (t, p) ← wired unreliable
  t₁ ← all_of (tables p) t
  t₂ ← at_link p.switch (set_queue_size 16) t₁
  t₃ ← all_of (entries p) t₂
  t₄ ← all_of (modules target adversary p) t₃
  some (t₄, p)

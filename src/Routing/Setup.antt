-- ===== src/Routing/Setup.antt =====
-- setupGraph of app/rip/testrip.cpp (and of app/pwospf/testpwospf.cpp, with another class): routers, and
-- for each edge a switch with a wire to either router. `none` is a failed assertion, an index outside
-- of the routers, or a division by the cost 0.
use kensv.Prelude.{ℕ, zero, suc, ◌+◌, false, Option, none, some, List, [], ◌∷◌, get_elem?, set}
use kensv.Prelude.Maybe.{◌>>=◌}
use kensv.RoutingInfo.{set_ip_addr, set_mac_addr, set_arp_table, set_routing_table}
use kensv.Host.Install.{Parts, add_host_module}
use kensv.Testbed.{
  Testbed, blank, add_host, add_switch, add_wire, at_tables, install, add_mac_entry, ethernet, ipv4,
  all_of,
}
use kensv.Routing.Graphs.{Edge}
use kensv.Routing.Costs.{speed_of}
use kensv.Routing.Addresses.{mac_addr, network_addr}

-- An edge that was set up: the ids of its routers and switch, and the ports of the routers.
pub record Joint : Type 0 where
  pub edge : Edge
  pub i : ℕ
  pub j : ℕ
  pub sw : ℕ
  pub i_port : ℕ
  pub j_port : ℕ

-- The first loop, with `n` routers to go.
unfoldable pub install_routers : (n : ℕ) → Testbed → Option (Testbed × List ℕ)
install_routers zero t = some (t, [])
install_routers (suc n) t = do
  (t₁, id) ← add_host t
  (t₂, ids) ← install_routers n t₁
  some (t₂, id ∷ ids)

-- The calls for the tables of two routers and of the switch between them.
abbrev pub table_calls :
    (i j sw i_port j_port i_sw j_sw : ℕ)
    → (network i_mac j_mac : List ℕ) → List (Testbed → Option Testbed)
table_calls i j sw i_port j_port i_sw j_sw network i_mac j_mac =
    at_tables i (set_mac_addr i_mac i_port)
    ∷ at_tables i (set_arp_table j_mac (set network 3 2))
    ∷ at_tables i (set_ip_addr (set network 3 1) i_port)
    ∷ at_tables i (set_routing_table network 24 i_port)
    ∷ at_tables j (set_mac_addr j_mac j_port)
    ∷ at_tables j (set_arp_table i_mac (set network 3 1))
    ∷ at_tables j (set_ip_addr (set network 3 2) j_port)
    ∷ at_tables j (set_routing_table network 24 j_port)
    ∷ add_mac_entry sw i_sw i_mac
    ∷ add_mac_entry sw j_sw j_mac
    ∷ []

-- The body of the second loop, with the ids that it takes for the network and for the two ports.
unfoldable pub connect_routers :
    (routers : List ℕ) → (network_id mac_id : ℕ) → Edge → Testbed → Option (Testbed × Joint)
connect_routers routers network_id mac_id edge t = do
  network ← network_addr network_id
  (t₁, sw) ← add_switch false t
  i ← get_elem? routers edge.0
  j ← get_elem? routers edge.1
  bps ← speed_of edge.2
  (t₂, i_port, i_sw) ← add_wire i sw 1000000 bps t₁
  (t₃, j_port, j_sw) ← add_wire j sw 1000000 bps t₂
  i_mac ← mac_addr mac_id
  j_mac ← mac_addr (mac_id + 1)
  t₄ ← all_of (table_calls i j sw i_port j_port i_sw j_sw network i_mac j_mac) t₃
  some (t₄, record { edge = edge; i = i; j = j; sw = sw; i_port = i_port; j_port = j_port })

unfoldable pub connect_all :
    (routers : List ℕ)
    → (network_id mac_id : ℕ) → List Edge
    → Testbed
    → Option (Testbed × List Joint)
connect_all routers network_id mac_id [] t = some (t, [])
connect_all routers network_id mac_id (edge ∷ graph) t = do
  (t₁, joint) ← connect_routers routers network_id mac_id edge t
  (t₂, joints) ← connect_all routers (network_id + 1) (mac_id + 2) graph t₁
  some (t₂, joint ∷ joints)

abbrev pub module_calls : (assignment : Parts) → (router : ℕ) → List (Testbed → Option Testbed)
module_calls assignment router =
    install router (add_host_module ethernet)
    ∷ install router (add_host_module ipv4)
    ∷ install router (add_host_module assignment)
    ∷ []

-- The third loop, with the class of the assignment.
unfoldable pub install_modules : (assignment : Parts) → List ℕ → Testbed → Option Testbed
install_modules assignment [] t = some t
install_modules assignment (router ∷ routers) t = do
  t₁ ← all_of (module_calls assignment router) t
  install_modules assignment routers t₁

-- `setupGraph`, with the routers and the edges.
unfoldable pub setup_graph :
    (assignment : Parts) → (routers : ℕ) → List Edge → Option (Testbed × List ℕ × List Joint)
setup_graph assignment n graph = do
  (t₁, routers) ← install_routers n blank
  (t₂, joints) ← connect_all routers 1 1 graph t₁
  t₃ ← install_modules assignment routers t₂
  some (t₃, routers, joints)

-- `RIPAssignment` and `PWOSPFAssignment`.
abbrev pub rip_assignment : Parts
rip_assignment = record {
  as_host_module = some "UDP";
  as_timer_module = some "UDP";
  as_interface = none;
}

abbrev pub pwospf_assignment : Parts
pwospf_assignment = record {
  as_host_module = some "OSPF";
  as_timer_module = some "OSPF";
  as_interface = none;
}

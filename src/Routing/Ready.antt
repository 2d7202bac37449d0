-- ===== src/Routing/Ready.antt =====
-- The set-up of every test of app/rip/testrip.cpp and app/pwospf/testpwospf.cpp succeeds.
use kensv.Prelude.{
  ℕ, ◌≡◌, ◌≢◌, ◌==◌, not, ap, [], ◌∷◌, refl, inl, inr, Bool, true, false, ◌&&◌, Option, none, some,
  List, arith, All, All-map₂, subst, Option-cases,
}
use kensv.Prelude.Maybe.{◌>>=◌, Holds}
use kensv.Prelude.Table.{lookup, assign, contains}
use kensv.Prelude.NumSet.{insert, member}
use kensv.NetworkUtil.{array_to_uint64, array_to_uint64_from}
use kensv.RoutingInfo.{set_ip_addr, set_mac_addr, set_arp_table, set_routing_table}
use kensv.Wire.{destination, connected}
use kensv.Wire
use kensv.Testbed.Delivery.{wire_of, leads_to}
use kensv.Networking.{add_node, new_module_id, connect_wire}
use kensv.Networking
use kensv.Switch.{Switch}
use kensv.Switch
use kensv.Host.Syscalls.{installed}
use kensv.Host.Modules.{has_module}
use kensv.Host.Install.{Parts, add_host_module, insert_name, insert_interface}
use kensv.Testbed.{
  Testbed, switch_of, all_of, add_host, add_switch, add_wire, at_tables, install, add_mac_entry,
}
use kensv.Routing.Costs.{speed_of, cost_lcm, calc_cost_lcm}
use kensv.Routing.Addresses.{mac_addr, network_addr, write_id}
use kensv.Routing.Expected.{RouteTest, tests}
use kensv.Routing.Correct.{IsRight, tests-IsRight}
use kensv.Routing.Setup.{
  Joint, install_routers, connect_routers, connect_all, install_modules, setup_graph,
  rip_assignment, pwospf_assignment,
}
use kensv.Routing.Ends.{IsSetUp, setup_graph-IsSetUp}

-- The module that the port of a router leads to.
abbrev pub neighbour : (router port : ℕ) → Testbed → Option ℕ
neighbour router port t = wire_of router port t >>= λ wire. leads_to router wire t

abbrev is_it : ℕ → Option ℕ → Bool
is_it k none = false
is_it k (some j) = j == k

is_it-some : (k : ℕ) (o : Option ℕ) → is_it k o ≡ true → o ≡ some k
is_it-some k none ok = cc
is_it-some k (some j) ok = ap some (ground arith)

-- The ports of the two routers of an edge lead to the same switch, its own.
abbrev pub IsJoined : Testbed → Joint → Type 0
IsJoined t x =
    (neighbour x.i x.i_port t ≡ some x.sw)
    × (neighbour x.j x.j_port t ≡ some x.sw)
    × (switch_of x.sw t ≢ none)

abbrev some_switch : Option Switch → Bool
some_switch none = false
some_switch (some s) = true

some_switch-some : (o : Option Switch) → some_switch o ≡ true → o ≢ none
some_switch-some none ok e = cc
some_switch-some (some s) ok e = cc

abbrev joined : Testbed → List Joint → Bool
joined t [] = true
joined t (x ∷ xs) =
    is_it x.sw (neighbour x.i x.i_port t)
    && is_it x.sw (neighbour x.j x.j_port t)
    && some_switch (switch_of x.sw t)
    && joined t xs

joined-IsJoined : (t : Testbed) (xs : List Joint) → joined t xs ≡ true → All (IsJoined t) xs
joined-IsJoined t [] ok = tt
joined-IsJoined t (x ∷ xs) ok = (
  (
    is_it-some x.sw (neighbour x.i x.i_port t) (ground arith),
    is_it-some x.sw (neighbour x.j x.j_port t) (ground arith),
    some_switch-some (switch_of x.sw t) (ground arith),
  ),
  joined-IsJoined t xs (ground arith),
)

-- Of one edge and those behind it: no other edge has the switch.
abbrev pub Apart : List Joint → Type 0
Apart [] = Unit
Apart (x ∷ xs) = All (λ y. x.sw ≢ y.sw) xs × Apart xs

abbrev no_other : ℕ → List Joint → Bool
no_other sw [] = true
no_other sw (y ∷ ys) = not (sw == y.sw) && no_other sw ys

no_other-All : (sw : ℕ) (ys : List Joint) → no_other sw ys ≡ true → All (λ y. sw ≢ y.sw) ys
no_other-All sw [] ok = tt
no_other-All sw (y ∷ ys) ok = (ground arith, no_other-All sw ys (ground arith))

abbrev apart : List Joint → Bool
apart [] = true
apart (x ∷ xs) = no_other x.sw xs && apart xs

apart-Apart : (xs : List Joint) → apart xs ≡ true → Apart xs
apart-Apart [] ok = tt
apart-Apart (x ∷ xs) ok = (no_other-All x.sw xs (ground arith), apart-Apart xs (ground arith))

abbrev returns : Option (Testbed × List ℕ × List Joint) → Bool
returns none = false
returns (some (t, routers, joints)) = joined t joints && apart joints

abbrev both_return : RouteTest → Bool
both_return t =
    returns (setup_graph rip_assignment t.routers t.graph)
    && returns (setup_graph pwospf_assignment t.routers t.graph)

-- With every test, for both assignments.
all_return : All (λ t. both_return t ≡ true) tests
unfolding wire_of leads_to destination connected setup_graph install_routers connect_routers
    connect_all install_modules speed_of cost_lcm calc_cost_lcm mac_addr network_addr write_id
    all_of add_host add_switch add_wire at_tables install add_mac_entry switch_of
    Networking.add_wire add_node new_module_id connect_wire Switch.add_mac_entry lookup assign
    contains insert member array_to_uint64 array_to_uint64_from set_mac_addr set_ip_addr
    set_arp_table set_routing_table add_host_module insert_name insert_interface installed
    has_module Wire.init
all_return = (refl, (refl, (refl, (refl, (refl, (refl, (refl, (refl, (refl, (refl, tt))))))))))

-- A set-up that returns, and has the edges and the costs of the graph.
abbrev pub SetsUp : Parts → RouteTest → Type 0
SetsUp assignment t =
    (x : Testbed × List ℕ × List Joint) × (setup_graph assignment t.routers t.graph ≡ some x)
    × IsSetUp t.graph x
    × All (IsJoined x.0) x.2
    × Apart x.2

sets_up :
    (assignment : Parts) (t : RouteTest)
    → returns (setup_graph assignment t.routers t.graph) ≡ true
    → IsRight t
    → SetsUp assignment t
sets_up assignment t done right =
    let costs = setup_graph-IsSetUp assignment t.routers t.graph right.costs in
    elim (Option-cases (setup_graph assignment t.routers t.graph)) [
      | inl failed ↦ let e = subst (λ o. returns o ≡ true) failed done in cc
      | inr (x, e) ↦
          let ok = subst (λ o. returns o ≡ true) e done in
          (
            x,
            e,
            subst (Holds (IsSetUp t.graph)) e costs,
            joined-IsJoined x.0 x.2 (ground arith),
            apart-Apart x.2 (ground arith),
          )
    ]

-- For the class of either assignment and every test: setupGraph fails no assertion, and sets up all
-- edges of the graph in order: for each edge, a port of either router that it names leads to one switch, which is that of
-- no other edge, and at both ports the assignment's linkCost is the cost of the edge, also after everything is built.
pub tests_are_set_up : All (λ t. SetsUp rip_assignment t × SetsUp pwospf_assignment t) tests
tests_are_set_up =
    All-map₂ (λ t. both_return t ≡ true) IsRight
      (λ t. SetsUp rip_assignment t × SetsUp pwospf_assignment t) tests
      (λ t done right. (
        sets_up rip_assignment t (ground arith) right,
        sets_up pwospf_assignment t (ground arith) right,
      ))
      all_return tests-IsRight

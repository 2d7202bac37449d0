-- ===== src/Tests/Topology.antt =====
-- Two nodes and a wire.
use kensv.Prelude.{◌≡◌, refl, true, some, List, [], ◌∷◌, arith}
use kensv.Prelude.Table.{lookup, assign, contains}
use kensv.Prelude.NumSet.{member}
use kensv.Wire.{Wire, End, opposite, connected, destination}
use kensv.Wire
use kensv.Networking.{
  Network, new_module_id, add_node, connect_wire, add_wire, Op, node, wire, build,
}
use kensv.Networking.Linked.{has_port}
use kensv.Networking.Peers.{port_leads}

abbrev two_nodes : List Op
two_nodes = node ∷ node ∷ wire 1 2 10 1000 true 0 ∷ []

abbrev line : Wire
line = record {
  connected_left = 1;
  connected_right = 2;
  next_left = 0;
  next_right = 0;
  propagation_delay = 10;
  bps = 1000;
  limit_speed = true;
}

abbrev network : Network
network = record { next = 4; wires = (3, line) ∷ []; ports = (1, 3 ∷ []) ∷ (2, 3 ∷ []) ∷ [] }

port_leads_example :
    (x : Wire) × (to : End) × (lookup 3 network.wires ≡ some x)
    × (destination 1 x ≡ some to)
    × (connected (opposite to) x ≡ 1)
    × (has_port (connected to x) 3 network ≡ true)
unfolding build add_node add_wire new_module_id connect_wire Wire.init lookup assign contains member
port_leads_example = port_leads two_nodes network 1 3 refl (omega arith) refl

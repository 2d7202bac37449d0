-- ===== src/Networking.antt =====
-- src/Networking/E_Networking.cpp and addModule of include/E/E_System.hpp: modules and the wires
-- between them. A host, a switch or a hub is a node; only its ports are kept.
pub mod Linked
pub mod Peers
use kensv.Prelude.{
  ℕ, ◌+◌, ◌%◌, ◌^◌, Bool, true, false, not, ◌||◌, Option, none, some, List, [], ◌∷◌, ◌++◌, length,
  get_elem?,
}
use kensv.Prelude.Maybe.{◌>>=◌, ◌>>◌, assert}
use kensv.Prelude.Table.{Table, lookup, assign, contains}
use kensv.Wire.{Wire, get_wire_speed}
use kensv.Wire

-- `next` of `newModuleID`, the wires, and the ports of the nodes, by module id.
pub record Network : Type 0 where
  pub next : ℕ
  pub wires : Table Wire
  pub ports : Table (List ℕ)

abbrev pub empty : Network
empty = record { next = 1; wires = []; ports = [] }

-- `newModuleID`, and the assertion of `addModule` that the id is not registered. The counter of the source
-- is one for the whole process; this is the first network of it.
unfoldable pub new_module_id : Network → Option (Network × ℕ)
new_module_id n =
    assert (not (contains n.next n.wires || contains n.next n.ports))
    >> some (record n { next = (n.next + 1) % 2 ^ 64 }, n.next)

-- `addModule` of a node.
unfoldable pub add_node : Network → Option (Network × ℕ)
add_node n = do (n', id) ← new_module_id n; some (record n' { ports = assign id [] n'.ports }, id)

-- `connectWire` of a module.
unfoldable pub connect_wire : (module_id wire : ℕ) → Network → Option (Network × ℕ)
connect_wire module_id wire n = do
  ports ← lookup module_id n.ports
  some (record n { ports = assign module_id (ports ++ wire ∷ []) n.ports }, length ports)

-- `addWire` at the time `now`: the wire, and its ports at both ends.
unfoldable pub add_wire :
    (left right propagation_delay bps : ℕ)
    → Bool
    → (now : ℕ) → Network
    → Option (Network × ℕ × ℕ × ℕ)
add_wire left right propagation_delay bps limit_speed now n = do
  (n₁, wire) ← new_module_id n
  let n₂ = record n₁ {
    wires = assign wire (Wire.init left right propagation_delay bps limit_speed now) n₁.wires;
  }
  (n₃, left_port_id) ← connect_wire left wire n₂
  (n₄, right_port_id) ← connect_wire right wire n₃
  some (n₄, wire, left_port_id, right_port_id)

-- `NetworkSystem::getWireSpeed`; `none` is a module that is not a wire.
unfoldable pub wire_speed : (module_id : ℕ) → Network → Option ℕ
wire_speed module_id n = lookup module_id n.wires >>= λ wire. some (get_wire_speed wire)

-- The building of a topology.
pub data Op : Type 0 where
  node : Op
  wire : (left right propagation_delay bps : ℕ) → Bool → (now : ℕ) → Op

unfoldable pub build : List Op → Network → Option Network
build [] n = some n
build (node ∷ ops) n = do (n', id) ← add_node n; build ops n'
build (wire left right propagation_delay bps limit_speed now ∷ ops) n = do
  (n', wire_id, left_port_id, right_port_id) ←
      add_wire left right propagation_delay bps limit_speed now n
  build ops n'

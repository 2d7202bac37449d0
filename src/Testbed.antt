-- ===== src/Testbed.antt =====
-- What the tests of app/kens/testenv.hpp and app/rip/testrip.cpp build before they run: hosts and
-- switches of one `NetworkSystem`, their tables, and the modules of the hosts. Nothing runs in the
-- meantime: the time is 0.
pub mod TwoHosts
pub mod Delivery
pub mod Reach
pub mod Ways
use Prim.Native.String.{String}
use kensv.Prelude.{ℕ, ◌+◌, Bool, true, Option, none, some, List, [], ◌∷◌, length}
use kensv.Prelude.Maybe.{◌>>=◌}
use kensv.Prelude.Table.{Table, lookup, assign}
use kensv.RoutingInfo.{RoutingInfo}
use kensv.Link.{Link, init, set_link_speed, set_queue_size}
use kensv.Switch.{Switch}
use kensv.Switch
use kensv.Networking.{Network, empty, add_node}
use kensv.Networking
use kensv.Host.Install.{Installed, Parts, add_host_module, default_system_call}
use kensv.Host.Modules.{Node}

-- A switch, but for its ports.
pub record Switching : Type 0 where
  pub mac_table : Table (List ℕ)
  pub unreliable : Bool
  pub link : Link

-- The tables and modules of the hosts, and the switches, by module id; the ports are in the network.
pub record Testbed : Type 0 where
  pub network : Network
  pub routing : Table RoutingInfo
  pub installed : Table Installed
  pub switches : Table Switching

abbrev pub blank : Testbed
blank = record { network = empty; routing = []; installed = []; switches = [] }

abbrev no_tables : RoutingInfo
no_tables = record { mac_vector = []; ip_vector = []; arp_vector = []; route_vector = [] }

abbrev no_modules : Installed
no_modules = record { host_modules = []; timer_modules = []; interfaces = [] }

-- `addModule<Host>`.
unfoldable pub add_host : Testbed → Option (Testbed × ℕ)
add_host t = do
  (network, id) ← add_node t.network
  modules ← add_host_module default_system_call no_modules
  some (
    record t {
      network = network;
      routing = assign id no_tables t.routing;
      installed = assign id modules t.installed;
    },
    id,
  )

-- `addModule<Switch>`.
unfoldable pub add_switch : (unreliable : Bool) → Testbed → Option (Testbed × ℕ)
add_switch unreliable t = do
  (network, id) ← add_node t.network
  some (
    record t {
      network = network;
      switches =
          assign id (record { mac_table = []; unreliable = unreliable; link = init }) t.switches;
    },
    id,
  )

-- `addWire`, which limits the speed: the ports at both ends.
unfoldable pub add_wire :
    (left right propagation_delay bps : ℕ) → Testbed → Option (Testbed × ℕ × ℕ)
add_wire left right propagation_delay bps t = do
  (network, wire, left_port, right_port) ←
      Networking.add_wire left right propagation_delay bps true 0 t.network
  some (record t { network = network }, left_port, right_port)

-- A call that changes the tables, or the modules, of a host.
unfoldable pub at_tables : (host : ℕ) → (RoutingInfo → RoutingInfo) → Testbed → Option Testbed
at_tables host f t = do
  r ← lookup host t.routing
  some (record t { routing = assign host (f r) t.routing })

unfoldable pub install : (host : ℕ) → (Installed → Option Installed) → Testbed → Option Testbed
install host f t = do
  modules ← lookup host t.installed
  modules' ← f modules
  some (record t { installed = assign host modules' t.installed })

-- The node and the switch of an id, with their ports.
unfoldable pub node_of : (host : ℕ) → Testbed → Option Node
node_of host t = do
  ports ← lookup host t.network.ports
  r ← lookup host t.routing
  modules ← lookup host t.installed
  some (record {
    module_names = modules.host_modules;
    port_count = length ports;
    running = true;
    routing = r;
  })

unfoldable pub switch_of : (id : ℕ) → Testbed → Option Switch
switch_of id t = do
  ports ← lookup id t.network.ports
  s ← lookup id t.switches
  some (record { ports = ports; mac_table = s.mac_table; unreliable = s.unreliable })

-- `addMACEntry` of a switch.
unfoldable pub add_mac_entry : (id port : ℕ) → List ℕ → Testbed → Option Testbed
add_mac_entry id port mac t = do
  s ← switch_of id t
  s' ← Switch.add_mac_entry port mac s
  old ← lookup id t.switches
  some (record t { switches = assign id (record old { mac_table = s'.mac_table }) t.switches })

-- `setQueueSize` and `setLinkSpeed` of a switch.
unfoldable pub at_link : (id : ℕ) → (Link → Link) → Testbed → Option Testbed
at_link id f t = do
  old ← lookup id t.switches
  some (record t { switches = assign id (record old { link = f old.link }) t.switches })

-- The classes of the library that a host gets, `Ethernet` and `IPv4`.
abbrev pub ethernet : Parts
ethernet = record { as_host_module = some "Ethernet"; as_timer_module = none; as_interface = none }

abbrev pub ipv4 : Parts
ipv4 = record { as_host_module = some "IPv4"; as_timer_module = none; as_interface = none }

-- Calls one after the other.
unfoldable pub all_of : List (Testbed → Option Testbed) → Testbed → Option Testbed
all_of [] t = some t
all_of (f ∷ fs) t = do t' ← f t; all_of fs t'

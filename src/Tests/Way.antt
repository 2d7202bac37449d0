-- ===== src/Tests/Way.antt =====
-- The datagram of `Tests.Nets` on its way between two hosts.
use kensv.Prelude.{
  ℕ, zero, suc, ◌+◌, ◌<◌, ◌≡◌, ◌≢◌, refl, true, none, some, [], ◌∷◌, drop, take, arith,
}
use kensv.Packet.{Packet}
use kensv.RoutingInfo.{get_mac_addr, find_mac}
use kensv.Ethernet.Stack.{tcp, copy}
use kensv.Host.Outgoing.{IsFirst}
use kensv.Host.Modules.{
  Node, passes, leaves, Modules, Others, has_module, packet_pass_received, wire_received,
}
use kensv.Host.Passing.{Works, host_to_host}
use kensv.Tests.Nets.{tables, datagram, home_mac, peer_mac, peer-IsReachable}

abbrev node : Node
node = record {
  module_names = "TCP" ∷ "IPv4" ∷ "Ethernet" ∷ [];
  port_count = 2;
  running = true;
  routing = tables;
}

-- The module above counts the packets that arrive.
abbrev counts : Others ℕ
counts to from p s = some (s + 1, [])

abbrev modules : Modules ℕ
modules = record { identification = 7; others = 0 }

node-Works : Works node
unfolding has_module get_mac_addr find_mac
node-Works = record {
  runs = refl;
  has_ethernet = refl;
  has_ipv4 = refl;
  some_port = omega arith;
  addressed = addressed;
}
  where
    addressed : (j : ℕ) → j < 2 → get_mac_addr j tables ≢ none
    addressed zero below e = cc
    addressed (suc zero) below e = cc
    addressed (suc (suc j)) below e = absurd (omega arith)

host_to_host_example :
    (q : Packet) × (q' : Packet) × (port : ℕ) × (packet_pass_received counts node
        (record { from = some "TCP"; to = "IPv4"; packet = datagram })
        modules
      ≡ some (
        record { identification = 8; others = 0 },
        passes (record { from = some "IPv4"; to = "Ethernet"; packet = q }) ∷ [],
      ))
    × ((v : Modules ℕ)
        → packet_pass_received counts node
            (record { from = some "IPv4"; to = "Ethernet"; packet = q })
            v
          ≡ some (v, leaves port q' ∷ []))
    × IsFirst 0 2 home_mac tables port
    × ((i : ℕ)
        → (wire_received node (copy i q')
            ≡ some (passes (record { from = none; to = "Ethernet"; packet = copy i q' }) ∷ []))
          × (packet_pass_received counts node
                (record { from = none; to = "Ethernet"; packet = copy i q' })
                modules
              ≡ some (
                modules,
                passes (record { from = some "Ethernet"; to = "IPv4"; packet = copy i q' }) ∷ [],
              ))
          × (packet_pass_received counts node
                (record { from = some "Ethernet"; to = "IPv4"; packet = copy i q' })
                modules
              ≡ some (
                modules,
                passes (record { from = some "IPv4"; to = "TCP"; packet = copy i q' }) ∷ [],
              )))
    × (drop 26 q'.buffer ≡ drop 26 datagram.buffer)
    × (take 6 q'.buffer ≡ peer_mac)
unfolding has_module
host_to_host_example =
    host_to_host counts tcp node node datagram modules modules home_mac peer_mac node-Works
      node-Works refl (omega arith) (ground arith) (omega arith) peer-IsReachable

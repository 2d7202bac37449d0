-- ===== src/Testbed/Delivery.antt =====
-- A datagram on its way through two hosts and the switch between them.
use kensv.Prelude.{
  ℕ, zero, suc, ◌+◌, ◌%◌, ◌^◌, ◌≤◌, ◌<◌, ◌≡◌, refl, sym, ap, subst, ◌∙◌, inl, inr, Bool, true,
  false, not, ◌&&◌, Option, none, some, List, [], ◌∷◌, map, length, get_or, take, drop, All,
  get_elem?, ◌==◌, length-take, arith,
}
use kensv.Prelude.Maybe.{◌>>=◌}
use kensv.Prelude.Table.{lookup}
use kensv.NetworkUtil.{array_to_uint64}
use kensv.NetworkUtil.Checksum.{IsByte}
use kensv.Packet.{Packet, Allocator}
use kensv.RoutingInfo.{get_ip_addr}
use kensv.Wire.{destination, connected}
use kensv.Switch.{Switch, is_target, packet_arrived}
use kensv.Switch.Forward.{keep, or_all, Ready, packet_arrived-Departs}
use kensv.Ethernet.Stack.{IsReachable, tcp, copy}
use kensv.Host.Outgoing.{IsFirst, owns}
use kensv.Host.Modules.{
  Node, passes, leaves, Modules, Others, has_module, packet_pass_received, wire_received,
}
use kensv.Host.Passing.{Works, host_to_host}
use kensv.Testbed.{Testbed, node_of, switch_of}

-- The wire of a port, and the module at the other end of a wire.
unfoldable pub wire_of : (module_id port : ℕ) → Testbed → Option ℕ
wire_of module_id port t = lookup module_id t.network.ports >>= λ ports. get_elem? ports port

unfoldable pub leads_to : (module_id wire : ℕ) → Testbed → Option ℕ
leads_to module_id wire t = do
  x ← lookup wire t.network.wires
  end ← destination module_id x
  some (connected end x)

-- What the tables of two hosts and a switch say of the way to an address.
pub record Passage (t : Testbed) (from to : ℕ) (ip : List ℕ) : Type 0 where
  pub sender : Node
  pub receiver : Node
  pub switch : Switch
  pub switch_id : ℕ
  pub in_wire : ℕ
  pub out_wire : ℕ
  pub src : List ℕ
  pub dst : List ℕ
  pub at_sender : node_of from t ≡ some sender
  pub at_receiver : node_of to t ≡ some receiver
  pub sender_works : Works sender
  pub receiver_works : Works receiver
  pub has_tcp : has_module "TCP" receiver.module_names ≡ true
  pub reachable : IsReachable sender.routing ip src dst
  pub own : owns 0 src sender.routing ≡ true
  pub leaves_by : wire_of from 0 t ≡ some in_wire
  pub comes_to : leads_to from in_wire t ≡ some switch_id
  pub at_switch : switch_of switch_id t ≡ some switch
  pub four_ports : length switch.ports ≡ 4
  pub reliable : switch.unreliable ≡ false
  pub targets :
      keep (λ w. not (in_wire == w) && is_target (array_to_uint64 dst) w switch) switch.ports
      ≡ out_wire ∷ []
  pub goes_to : leads_to switch_id out_wire t ≡ some to
  pub to_port : ℕ
  pub has_ip : get_ip_addr to_port receiver.routing ≡ some ip
  pub enters_by : wire_of to to_port t ≡ some out_wire

-- The datagram `p` that the "TCP" of one host passes down, as frame `q'` on the wires, and as its copy
-- `d` behind the switch, on the wire of the port with its destination, which the "TCP" of the other host gets.
pub record Delivered {ℓ} {S : Type ℓ} (others : Others S) (t : Testbed) (from to : ℕ) (p : Packet)
    (w w' : Modules S) (lost : ℕ → Bool) (a : Allocator) : Type ℓ where
  pub sender : Node
  pub receiver : Node
  pub switch : Switch
  pub switch_id : ℕ
  pub in_wire : ℕ
  pub out_wire : ℕ
  pub q : Packet
  pub q' : Packet
  pub d : Packet
  pub allocator : Allocator
  pub at_sender : node_of from t ≡ some sender
  pub at_receiver : node_of to t ≡ some receiver
  pub at_switch : switch_of switch_id t ≡ some switch
  pub down :
      packet_pass_received others sender (record { from = some "TCP"; to = "IPv4"; packet = p }) w
      ≡ some (
        record w { identification = (w.identification + 1) % 2 ^ 16 },
        passes (record { from = some "IPv4"; to = "Ethernet"; packet = q }) ∷ [],
      )
  pub out :
      (v : Modules S)
      → packet_pass_received others sender
          (record { from = some "IPv4"; to = "Ethernet"; packet = q })
          v
        ≡ some (v, leaves 0 q' ∷ [])
  pub leaves_by : wire_of from 0 t ≡ some in_wire
  pub comes_to : leads_to from in_wire t ≡ some switch_id
  pub forwarded : packet_arrived in_wire q' switch lost a ≡ some (allocator, (out_wire, d) ∷ [])
  pub goes_to : leads_to switch_id out_wire t ≡ some to
  pub to_port : ℕ
  pub has_ip : get_ip_addr to_port receiver.routing ≡ some (take 4 (drop 30 p.buffer))
  pub enters_by : wire_of to to_port t ≡ some out_wire
  pub arrives :
      wire_received receiver d
      ≡ some (passes (record { from = none; to = "Ethernet"; packet = d }) ∷ [])
  pub up :
      packet_pass_received others receiver (record { from = none; to = "Ethernet"; packet = d }) w'
      ≡ some (w', passes (record { from = some "Ethernet"; to = "IPv4"; packet = d }) ∷ [])
  pub to_tcp :
      packet_pass_received others receiver
        (record { from = some "Ethernet"; to = "IPv4"; packet = d })
        w'
      ≡ some (w', passes (record { from = some "IPv4"; to = "TCP"; packet = d }) ∷ [])
  pub same : drop 26 d.buffer ≡ drop 26 p.buffer

-- The port 0, if it has the address.
IsFirst-zero :
    (n : Node) (src : List ℕ) (port : ℕ)
    → owns 0 src n.routing ≡ true
    → IsFirst 0 n.port_count src n.routing port
    → port ≡ 0
IsFirst-zero n src zero own first = refl
IsFirst-zero n src (suc port) own (inl (from, below, owned, before)) =
    let not_own = before 0 (omega arith) (omega arith) in cc
IsFirst-zero n src (suc port) own (inr (none_zero, no_one)) = absurd (omega arith)

-- One departure.
one_departure :
    (sent : List (ℕ × Packet)) (buffer : List ℕ) (wire : ℕ)
    → map (λ s. s.0) sent ≡ wire ∷ []
    → All (λ s. s.1.buffer ≡ buffer) sent
    → (d : Packet) × (sent ≡ (wire, d) ∷ []) × (d.buffer ≡ buffer)
one_departure [] buffer wire through bytes = cc
one_departure ((k, d) ∷ []) buffer wire through bytes =
    let at_wire : k ≡ wire = ap (λ l. get_or l 0 0) through in
    (d, ap (λ k. (k, d) ∷ []) at_wire, bytes.0)
one_departure ((k, d) ∷ e ∷ sent) buffer wire through bytes =
    absurd (omega (arith, ap length through))

-- The switch sends one copy of a frame for a known address, through its wire.
forwards :
    (t : Testbed) (from to : ℕ) (ip : List ℕ) (path : Passage t from to ip) (frame : Packet)
    (lost : ℕ → Bool) (a : Allocator)
    → take 6 frame.buffer ≡ path.dst
    → Ready (length path.switch.ports) a
    → (a' : Allocator) × (d : Packet) × (packet_arrived path.in_wire frame path.switch lost a
        ≡ some (a', (path.out_wire, d) ∷ []))
      × (d.buffer ≡ frame.buffer)
unfolding or_all
forwards t from to ip path frame lost a to_dst ready =
    let header : 6 ≤ length frame.buffer =
      omega (arith, length-take 6 frame.buffer, ap length to_dst, path.reachable.target_size) in
    let departs = packet_arrived-Departs path.in_wire frame path.switch lost a header ready in
    let to_wire = departs.through ∙ rw (to_dst, path.targets) refl in
    let (d, only, same) =
      one_departure departs.sent frame.buffer path.out_wire to_wire
        (departs.bytes (ap not path.reliable)) in
    (departs.allocator, d, departs.leaves ∙ ap (λ sent. some (departs.allocator, sent)) only, same)

module _ {ℓ} {S : Type ℓ} (others : Others S) (t : Testbed) (from to : ℕ) (ip : List ℕ)
    (path : Passage t from to ip) where
  -- Along such a path a datagram is delivered.
  pub path_delivers :
      (p : Packet) (w w' : Modules S) (lost : ℕ → Bool) (a : Allocator)
      → 34 ≤ length p.buffer
      → All IsByte p.buffer
      → w.identification < 2 ^ 16
      → take 4 (drop 30 p.buffer) ≡ ip
      → Ready 4 a
      → Delivered others t from to p w w' lost a
  path_delivers p w w' lost a room bytes small addressed ready =
      let k =
        subst (λ ip. IsReachable path.sender.routing ip path.src path.dst) (sym addressed)
          path.reachable in
      let (q, q', port, down, out, first, up, same, to_dst) =
        host_to_host others tcp path.sender path.receiver p w w' path.src path.dst path.sender_works
          path.receiver_works path.has_tcp room bytes small k in
      let at_zero : port ≡ 0 = IsFirst-zero path.sender path.src port path.own first in
      let (a', d, sent, copied) =
        forwards t from to ip path q' lost a to_dst
          (subst (λ n. Ready n a) (sym path.four_ports) ready) in
      let is_copy : copy d.packet_id q' ≡ d = ap (λ b. record d { buffer = b }) (sym copied) in
      let there = subst (Arrives path.receiver w') is_copy (up d.packet_id) in
      record {
        sender = path.sender;
        receiver = path.receiver;
        switch = path.switch;
        switch_id = path.switch_id;
        in_wire = path.in_wire;
        out_wire = path.out_wire;
        q = q;
        q' = q';
        d = d;
        allocator = a';
        at_sender = path.at_sender;
        at_receiver = path.at_receiver;
        at_switch = path.at_switch;
        down = down;
        out = λ v. out v ∙ ap (λ port. some (v, leaves port q' ∷ [])) at_zero;
        leaves_by = path.leaves_by;
        comes_to = path.comes_to;
        forwarded = sent;
        goes_to = path.goes_to;
        to_port = path.to_port;
        has_ip = path.has_ip ∙ ap some (sym addressed);
        enters_by = path.enters_by;
        arrives = there.0;
        up = there.1;
        to_tcp = there.2;
        same = ap (drop 26) copied ∙ same;
      }
    where
      Arrives : Node → Modules S → Packet → Type ℓ
      Arrives n w' d =
          (wire_received n d
            ≡ some (passes (record { from = none; to = "Ethernet"; packet = d }) ∷ []))
          × (packet_pass_received others n (record { from = none; to = "Ethernet"; packet = d }) w'
              ≡ some (w', passes (record { from = some "Ethernet"; to = "IPv4"; packet = d }) ∷ []))
          × (packet_pass_received others n
                (record { from = some "Ethernet"; to = "IPv4"; packet = d }) w'
              ≡ some (w', passes (record { from = some "IPv4"; to = "TCP"; packet = d }) ∷ []))

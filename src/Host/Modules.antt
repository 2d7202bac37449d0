-- ===== src/Host/Modules.antt =====
-- The way of a packet between the modules of a host, in src/Networking/E_Host.cpp: sendPacketToModule,
-- and the branches of messageReceived for a packet from a wire and for a `PacketPass`. The modules
-- "Ethernet" and "IPv4" are those of the library; `others` are the further modules of the host.
use Prim.Native.String.{String}
use text.Mathlib.Text.{◌==◌ as str_eq}
use kensv.Prelude.{ℕ, Bool, true, false, Option, none, some, List, [], ◌∷◌, ◌++◌, if◌then◌else◌}
use kensv.Prelude.Maybe.{◌>>=◌, ◌>>◌, assert}
use kensv.Packet.{Packet}
use kensv.RoutingInfo.{RoutingInfo}
use kensv.Ipv4.{Output}
use kensv.Ipv4
use kensv.Ethernet
use kensv.Host.Outgoing.{send_packet_to_host}

-- What a host consults for a packet: the names in `hostModuleMap`, the number of ports, `running`,
-- and its tables.
pub record Node : Type 0 where
  pub module_names : List String
  pub port_count : ℕ
  pub running : Bool
  pub routing : RoutingInfo

-- `PacketPass`.
pub record PacketPass : Type 0 where
  pub from : Option String
  pub to : String
  pub packet : Packet

-- A message of the host to itself, or a packet that leaves through the port of an index.
pub data Effect : Type 0 where
  passes : PacketPass → Effect
  leaves : ℕ → Packet → Effect

-- The state of the modules: the identification of IPv4, and that of the others.
pub record Modules {ℓ} (S : Type ℓ) : Type ℓ where
  pub identification : ℕ
  pub others : S

-- `packetArrived` of another module, by its name and that of the sender, with what it sends on.
abbrev pub Others {ℓ} : Type ℓ → Type ℓ
Others S = String → String → Packet → S → Option (S × List (String × Packet))

unfoldable pub has_module : String → List String → Bool
has_module name [] = false
has_module name (n ∷ ns) = let rest = has_module name ns in if str_eq n name then true else rest

-- `Host::sendPacketToModule`.
unfoldable pub send_packet_to_module : Node → Option String → String → Packet → Option (List Effect)
send_packet_to_module n from to p =
    if str_eq to "Host"
    then (send_packet_to_host p n.port_count n.running n.routing >>= λ port.
        some (elim port [ none ↦ [] | some k ↦ leaves k p ∷ [] ]))
    else if has_module to n.module_names
    then some (passes (record { from = from; to = to; packet = p }) ∷ [])
    else some []

-- What a module sends, in order.
unfoldable pub send_all : Node → String → List (String × Packet) → Option (List Effect)
send_all n from [] = some []
send_all n from ((to, p) ∷ sent) = do
  es ← send_packet_to_module n (some from) to p
  es' ← send_all n from sent
  some (es ++ es')

abbrev as_list : Output → List (String × Packet)
as_list none = []
as_list (some out) = out ∷ []

abbrev pub value_or : Option String → String → String
value_or none d = d
value_or (some s) d = s

-- The virtual call of `packetArrived` of the module `to`.
unfoldable pub module_packet_arrived {ℓ} :
    {S : Type ℓ}
    → Others S
    → Node
    → (to from : String) → Packet
    → Modules S
    → Option (Modules S × List (String × Packet))
module_packet_arrived others n to from p w =
    if str_eq to "Ethernet"
    then (Ethernet.packet_arrived n.routing from p >>= λ out. some (w, as_list out))
    else if str_eq to "IPv4"
    then (Ipv4.packet_arrived from p w.identification >>= λ (id, out).
        some (record w { identification = id }, as_list out))
    else (others to from p w.others >>= λ (s, sent). some (record w { others = s }, sent))

-- The branch for `PacketPass`; `none` also for a module that is not there, which is called through null.
unfoldable pub packet_pass_received {ℓ} :
    {S : Type ℓ} → Others S → Node → PacketPass → Modules S → Option (Modules S × List Effect)
packet_pass_received others n m w =
    if n.running
    then (do
      assert (has_module m.to n.module_names)
      (w', sent) ← module_packet_arrived others n m.to (value_or m.from "Host") m.packet w
      es ← send_all n m.to sent
      some (w', es))
    else some (w, [])

-- The branch for a packet from a wire.
unfoldable pub wire_received : Node → Packet → Option (List Effect)
wire_received n p = if n.running then send_packet_to_module n none "Ethernet" p else some []

-- ===== src/Link.antt =====
-- src/Networking/E_Link.cpp: the output queues of a switch or hub, by port. The pcap file is not
-- modelled; the random place of an eviction is an argument.
pub mod Order
pub mod Queues
pub mod Ports
pub mod Checks
pub mod Runs
use Prim.Native.Nat.{min}
use kensv.Prelude.{
  ℕ, zero, suc, ◌+◌, ◌-◌, ◌*◌, ◌/◌, ◌%◌, ◌^◌, Bool, true, false, not, ◌&&◌, ◌||◌, Option, none,
  some, List, [], ◌∷◌, ◌++◌, length, ltb, leb, ◌==◌, if◌then◌else◌,
}
use kensv.Prelude.Maybe.{◌>>=◌, ◌>>◌, assert}
use kensv.Prelude.Table.{Table, lookup, assign}
use kensv.Packet.{Packet, get_size}

pub record Link : Type 0 where
  pub next_available : Table ℕ
  pub output_queue : Table (List Packet)
  pub bps : ℕ
  pub max_queue_length : ℕ

-- What a handler sends: a packet to a wire (`PACKET_TO_PORT`), or a `CHECK_QUEUE` to itself, with
-- the delay.
pub data Effect : Type 0 where
  packet_to_port : ℕ → Packet → ℕ → Effect
  check_queue : ℕ → ℕ → Effect

-- `Link::Link`.
abbrev pub init : Link
init = record { next_available = []; output_queue = []; bps = 1000000000; max_queue_length = 0 }

unfoldable pub set_link_speed : ℕ → Link → Link
set_link_speed bps l = record l { bps = bps }

unfoldable pub set_queue_size : ℕ → Link → Link
set_queue_size max_queue_length l = record l { max_queue_length = max_queue_length }

abbrev pub or_else {ℓ} : {A : Type ℓ} → A → Option A → A
or_else d none = d
or_else d (some a) = a

-- `outputQueue[port]` and `nextAvailable[port]`: a key that is not there stands for a fresh entry.
unfoldable pub queue_of : ℕ → Link → List Packet
queue_of port l = or_else [] (lookup port l.output_queue)

unfoldable pub available_at : ℕ → Link → ℕ
available_at port l = or_else 0 (lookup port l.next_available)

unfoldable pub set_queue : ℕ → List Packet → Link → Link
set_queue port q l = record l { output_queue = assign port q l.output_queue }

-- The nanoseconds that the bits of a packet take. The code computes the quotient in `double`, which
-- cuts off to the same integer while its terms stay below 2 ^ 53.
unfoldable pub trans_delay : ℕ → Packet → ℕ
trans_delay bps p = if bps == 0 then 0 else get_size p * 8 * 1000000000 / bps

-- `erase` at an iterator.
unfoldable pub erase_at {ℓ} : {A : Type ℓ} → ℕ → List A → List A
erase_at i [] = []
erase_at zero (x ∷ xs) = xs
erase_at (suc i) (x ∷ xs) = x ∷ erase_at i xs

-- The eviction from a full queue; `place` is the draw between `max / 2` and `max`, cut off.
unfoldable pub evict : ℕ → ℕ → List Packet → List Packet
unfolding erase_at
evict place limit q =
    if not (limit == 0) && leb limit (length q)
    then (let index = if leb limit place then limit - 1 else place in
        if ltb index (length q) then erase_at index q else q)
    else q

-- `wait_time`: the time until the port is available.
unfoldable pub wait_time : ℕ → ℕ → ℕ
wait_time available now = if ltb now available then available - now else 0

-- `sendPacket` at the time `now`; `none` is a failed assertion.
unfoldable pub send_packet : ℕ → ℕ → Packet → ℕ → Link → Option (Link × List Effect)
send_packet place port p now l = do
  let kept = evict place l.max_queue_length (queue_of port l)
  assert ((l.max_queue_length == 0) || ltb (length kept) l.max_queue_length)
  let q = kept ++ p ∷ []
  some (
    set_queue port q l,
    if length q == 1 then check_queue port (wait_time (available_at port l) now) ∷ [] else [],
  )

-- The rest of the `CHECK_QUEUE` branch, once the queue is known not to be empty.
unfoldable pub serve : ℕ → ℕ → Packet → List Packet → Link → Option (Link × List Effect)
serve port now p rest l = do
  let delay = trans_delay l.bps p
  let available = (now + delay) % 2 ^ 64
  let l' = record l {
    output_queue = assign port rest l.output_queue;
    next_available = assign port available l.next_available;
  }
  elim rest [
    | [] ↦ some (l', packet_to_port port p delay ∷ [])
    | _ ∷ _ ↦
        assert (wait_time available now == delay)
        >> some (l', packet_to_port port p delay ∷ check_queue port (wait_time available now) ∷ [])
  ]

-- The `CHECK_QUEUE` branch of `messageReceived`.
unfoldable pub on_check_queue : ℕ → ℕ → Link → Option (Link × List Effect)
unfolding serve
on_check_queue port now l = elim (queue_of port l) [
  | [] ↦ none
  | p ∷ rest ↦ if leb (available_at port l) now then serve port now p rest l else some (l, [])
]

-- A packet from a wire, or a `CHECK_QUEUE`.
pub data Message : Type 0 where
  from_wire : Packet → Message
  check : ℕ → Message

-- `Link::messageReceived`, with the virtual `packetArrived` of the switch or hub and its state.
unfoldable pub message_received {ℓ} :
    {A : Type ℓ}
    → (packet_arrived : (from : ℕ) → Packet → A → Link → Option (A × Link × List Effect))
    → (from : ℕ) → Message
    → (now : ℕ) → A
    → Link
    → Option (A × Link × List Effect)
message_received packet_arrived from (from_wire p) now a l = packet_arrived from p a l
message_received packet_arrived from (check port) now a l = do
  (l', es) ← on_check_queue port now l
  some (a, l', es)

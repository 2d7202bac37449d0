-- ===== src/Wire.antt =====
-- src/Networking/E_Wire.cpp: a wire between two modules. A direction is the end that it leads to.
-- The log is not modelled, and the message types are those of the arguments.
pub mod Order
use kensv.Prelude.{
  ℕ, ◌+◌, ◌-◌, ◌*◌, ◌/◌, ◌%◌, ◌^◌, Bool, true, false, ◌||◌, Option, none, some, ltb, ◌==◌,
  if◌then◌else◌,
}
use kensv.Packet.{Packet, get_size}

-- An index of the two arrays.
pub data End : Type 0 where
  left : End
  right : End

abbrev pub opposite : End → End
opposite left = right
opposite right = left

pub record Wire : Type 0 where
  pub connected_left : ℕ
  pub connected_right : ℕ
  pub next_left : ℕ
  pub next_right : ℕ
  pub propagation_delay : ℕ
  pub bps : ℕ
  pub limit_speed : Bool

unfoldable pub connected : End → Wire → ℕ
connected left w = w.connected_left
connected right w = w.connected_right

unfoldable pub next_available : End → Wire → ℕ
next_available left w = w.next_left
next_available right w = w.next_right

unfoldable pub set_next_available : End → ℕ → Wire → Wire
set_next_available left t w = record w { next_left = t }
set_next_available right t w = record w { next_right = t }

-- `Wire::Wire` at the time `now`.
unfoldable pub init : (left_id right_id delay bps : ℕ) → Bool → (now : ℕ) → Wire
init left_id right_id delay bps limit now = record {
  connected_left = left_id;
  connected_right = right_id;
  next_left = now;
  next_right = now;
  propagation_delay = delay;
  bps = bps;
  limit_speed = limit;
}

unfoldable pub set_speed_limit : Bool → Wire → Wire
set_speed_limit limit w = record w { limit_speed = limit }

unfoldable pub set_wire_speed : ℕ → Wire → Wire
set_wire_speed bps w = record w { bps = bps }

unfoldable pub get_wire_speed : Wire → ℕ
get_wire_speed w = w.bps

unfoldable pub set_propagation_delay : ℕ → Wire → Wire
set_propagation_delay delay w = record w { propagation_delay = delay }

-- The end that a packet of the module `from` goes to, if there is one.
unfoldable pub destination : ℕ → Wire → Option End
destination from w =
    if w.connected_left == from
    then (if w.connected_right == 0 then none else some right)
    else if w.connected_right == from
    then (if w.connected_left == 0 then none else some left)
    else none

-- The nanoseconds that the bits of a packet take. The code computes the quotient in `double`, which
-- cuts off to the same integer while its terms stay below 2 ^ 53.
unfoldable pub trans_delay : ℕ → Packet → ℕ
trans_delay bps p = if bps == 0 then 0 else get_size p * 8 * 1000000000 / bps

-- The time at which the transmission of a packet ends that is received at `now`.
unfoldable pub end_of : End → Packet → ℕ → Wire → ℕ
end_of to p now w =
    let next : ℕ = next_available to w in
    ((if ltb next now then now else next) + trans_delay w.bps p) % 2 ^ 64

-- The delay of the message to the module at the other end.
unfoldable pub delay_of : End → Packet → ℕ → Wire → ℕ
delay_of to p now w =
    if w.limit_speed
    then (end_of to p now w + w.propagation_delay + (2 ^ 64 - now)) % 2 ^ 64
    else w.propagation_delay

-- A message to a module: its receiver, the packet, and the delay.
pub record Sent : Type 0 where
  pub to : ℕ
  pub packet : Packet
  pub delay : ℕ

-- `messageReceived` of a packet of the module `from` at the time `now`.
unfoldable pub message_received : ℕ → Packet → ℕ → Wire → Wire × Option Sent
message_received from p now w = elim (destination from w) [
  | none ↦ (w, none)
  | some to ↦ (
    set_next_available to (end_of to p now w) w,
    some (record { to = connected to w; packet = p; delay = delay_of to p now w }),
  )
]

-- `nextSendAvailable`; `none` is a failed assertion.
unfoldable pub next_send_available : ℕ → Wire → Option ℕ
next_send_available me w = elim (destination me w) [
  | none ↦ none
  | some to ↦ some (next_available to w)
]

-- ===== src/Tests/Switches.antt =====
-- A switch with three wires that knows one hardware address.
use kensv.Prelude.{
  ℕ, ◌≡◌, ◌≢◌, ◌++◌, map, length, some, List, All, Bool, true, false, not, ◌&&◌, [], ◌∷◌, take,
  replicate, arith, ◌==◌,
}
use kensv.NetworkUtil.{array_to_uint64}
use kensv.Packet.{Packet, Allocator}
use kensv.Switch.{Switch, is_target, packet_arrived}
use kensv.Switch.Forward.{keep, or_all, Departs, packet_arrived-Departs}
use kensv.Switch.Queueing.{arrive, AllSent, arrive-Inv}
use kensv.Link.{Link, Effect, queue_of}
use kensv.Link.Ports.{checks}
use kensv.Prelude.Table.{lookup}
use kensv.Link.{set_queue_size, from_wire}
use kensv.Link.Checks.{Inv, Fits}
use kensv.Switch.Runs.{switch_received, a_packet, switch_handles}
use kensv.Switch.Runs
use kensv.Link.Runs.{start, created, Run-Inv}

abbrev switch : Switch
switch = record { ports = 11 ∷ 12 ∷ 13 ∷ []; mac_table = (12, 1 ∷ []) ∷ []; unreliable = true }

abbrev frame : Packet
frame = record { buffer = 1 ∷ replicate 59 0; packet_id = 0 }

abbrev allocator : Allocator
allocator = record { packet_uuid_set = 0 ∷ []; packet_uuid_start = 1 }

abbrev lost : ℕ → Bool
lost w = true

packet_arrived-Departs_example :
    Departs frame
      (or_all
        (keep
          (λ w. not (11 == w) && is_target (array_to_uint64 (take 6 frame.buffer)) w switch)
          switch.ports)
        (keep (λ w. not (11 == w)) switch.ports))
      (not true)
      (packet_arrived 11 frame switch lost allocator)
packet_arrived-Departs_example =
    packet_arrived-Departs 11 frame switch lost allocator (omega arith) (omega arith, omega arith)

abbrev evicts : ℕ → ℕ
evicts k = 1

arrive-Inv_example :
    (a' : Allocator) × (sent : List (ℕ × Packet)) × (l : Link) × (es : List Effect) × (arrive 11
        frame switch lost evicts 5 allocator
        (start 2).link
      ≡ some (a', l, es))
    × (map (λ d. d.0) sent
        ≡ or_all
            (keep
              (λ k. not (11 == k) && is_target (array_to_uint64 (take 6 frame.buffer)) k switch)
              switch.ports)
            (keep (λ k. not (11 == k)) switch.ports))
    × All (λ d. length d.1.buffer ≡ length frame.buffer) sent
    × (switch.unreliable ≡ false → All (λ d. d.1.buffer ≡ frame.buffer) sent)
    × AllSent 5 sent (start 2).link l es
    × ((k : ℕ) → All (λ d. d.0 ≢ k) sent → queue_of k l ≡ queue_of k (start 2).link)
    × All (λ d. queue_of d.0 l ≢ []) sent
    × Inv (record { link = l; pending = (start 2).pending ++ checks 5 es })
arrive-Inv_example =
    arrive-Inv 11 frame switch lost evicts 5 allocator (start 2) (omega arith)
      (omega arith, omega arith) (omega arith) (Run-Inv (omega arith) created)

start-Fits : Fits 5 (start 2).link
unfolding start set_queue_size queue_of lookup
start-Fits = (omega arith, λ port p rest e. cc)

switch_handles_example :
    (a' : Allocator) × (l : Link) × (es : List Effect) × (switch_received switch lost evicts 11
        (from_wire frame)
        5
        allocator
        (start 2).link
      ≡ some (a', l, es))
    × Inv (record { link = l; pending = (start 2).pending ++ checks 5 es })
switch_handles_example =
    switch_handles switch 2 (start 2) lost evicts 11 (from_wire frame) 5 allocator (start 2).pending
      (omega arith) Runs.created start-Fits
      (a_packet frame (omega arith) (omega arith, omega arith))

-- ===== src/Tests/Links.antt =====
-- A link that has taken two packets for one port, and a wire.
use kensv.Prelude.{
  subst, inl, inr, Bool-cases, ◌==◌, if◌then◌else◌, ltb, ◌+◌, ◌≡◌, ◌^◌, ◌<◌, refl, true, none, some,
  List, [], ◌∷◌, ◌++◌, arith,
}
use kensv.Prelude.Table.{lookup, assign}
use kensv.Packet.{Packet, get_size}
use kensv.Link.{
  evict, set_queue, serve, packet_to_port, Link, Effect, check_queue, set_queue_size, queue_of,
  available_at, wait_time, trans_delay, send_packet, on_check_queue,
}
use kensv.Link.Order.{Sub}
use kensv.Link.Queues.{Serves}
use kensv.Link.Ports.{checks}
use kensv.Link.Checks.{World, Step, arrives, fires, Inv, Fits, Step-Inv}
use kensv.Link.Runs.{start, Run, sent_in, created, step, Run-Inv, check_passes_on, limit_one_fails}
use kensv.Wire.{
  End, destination, message_received, end_of, set_next_available, trans_delay as wire_delay, Wire,
  connected, next_available, left, right,
}
use kensv.Wire.Order.{Rooms, after, Input, arrivals, Spaced, arrivals-Spaced}

abbrev packet : Packet
packet = record { buffer = 1 ∷ 2 ∷ 3 ∷ []; packet_id = 1 }

abbrev sent_link : Link
sent_link = record {
  next_available = [];
  output_queue = (7, packet ∷ []) ∷ [];
  bps = 1000000000;
  max_queue_length = 2;
}

abbrev served : Link
served = record sent_link { output_queue = (7, []) ∷ []; next_available = (7, 29) ∷ [] }

abbrev one_link : Link
one_link = record sent_link { max_queue_length = 1 }

abbrev sent : World
sent = record { link = sent_link; pending = (7, 5) ∷ [] }

start-Fits : Fits 5 (start 2).link
unfolding start set_queue_size queue_of lookup
start-Fits = (omega arith, λ port p rest e. cc)

sent-Run : Run 2 sent
unfolding start set_queue_size queue_of lookup send_packet evict available_at wait_time set_queue
    assign checks
sent-Run = step 5 created start-Fits (arrives 0 7 packet refl)

packet_time : 5 + trans_delay 1000000000 packet < 2 ^ 64
unfolding trans_delay get_size
packet_time = omega arith

sent-Fits : Fits 5 sent_link
unfolding set_queue_size queue_of lookup
sent-Fits = (
  omega arith,
  λ port p rest e. elim (Bool-cases (7 == port)) [
    | inl it ↦
        let both : packet ∷ [] ≡ p ∷ rest = rw it at e in
        let is_it : packet ≡ p = cc in
        subst (λ p. 5 + trans_delay 1000000000 p < 2 ^ 64) is_it packet_time
    | inr other ↦ let both : [] ≡ p ∷ rest = rw other at e in cc
  ],
)

check_passes_on_example :
    (p : Packet) × (rest : List Packet) × (l : Link) × (es : List Effect) × (queue_of 7 sent_link
      ≡ p ∷ rest)
    × Sub (p ∷ rest) (sent_in 7 sent-Run)
    × (on_check_queue 7 5 sent_link ≡ some (l, es))
    × Serves 7 5 p rest sent_link l es
check_passes_on_example = check_passes_on 5 7 [] [] (omega arith) sent-Run sent-Fits refl

served_once :
    Step sent 5
      (record { link = served; pending = [] ++ checks 5 (packet_to_port 7 packet 24 ∷ []) })
unfolding set_queue_size queue_of lookup on_check_queue serve available_at trans_delay get_size
    assign wait_time
served_once = fires [] [] 7 refl refl

Step-Inv_example :
    Inv (record { link = served; pending = [] ++ checks 5 (packet_to_port 7 packet 24 ∷ []) })
Step-Inv_example = Step-Inv served_once sent-Fits (Run-Inv (omega arith) sent-Run)

limit_one_fails_example :
    (l' : Link) × (l'' : Link) × (es : List Effect) × (send_packet 0 7 packet 6 one_link
      ≡ some (l', check_queue 7 (wait_time (available_at 7 one_link) 6) ∷ []))
    × (on_check_queue 7 6 l' ≡ some (l'', es))
    × (on_check_queue 7 8 l'' ≡ none)
unfolding set_queue_size queue_of lookup available_at trans_delay get_size
limit_one_fails_example =
    limit_one_fails 0 7 6 6 8 packet packet one_link refl refl (omega arith) (omega arith)

abbrev bell : Wire
bell = record {
  connected_left = 1;
  connected_right = 2;
  next_left = 0;
  next_right = 0;
  propagation_delay = 1000;
  bps = 1000000000;
  limit_speed = true;
}

abbrev inputs : List Input
inputs =
    record { from = 1; packet = packet; now = 5 }
    ∷ record { from = 1; packet = packet; now = 6 }
    ∷ []

rooms : Rooms inputs bell
unfolding destination next_available wire_delay get_size message_received end_of set_next_available
rooms = ((omega arith, λ to e. first to), ((omega arith, λ to e. second to), tt))
  where
    first :
        (to : End)
        → (if ltb (next_available to bell) 5 then 5 else next_available to bell)
            + wire_delay 1000000000 packet
            + 1000
          < 2 ^ 64
    first left = omega arith
    first right = omega arith

    second :
        (to : End)
        → (if ltb (next_available to (after (record { from = 1; packet = packet; now = 5 }) bell)) 6
              then 6
              else next_available to (after (record { from = 1; packet = packet; now = 5 }) bell))
            + wire_delay 1000000000 packet
            + 1000
          < 2 ^ 64
    second left = omega arith
    second right = omega arith

arrivals-Spaced_example :
    Spaced (next_available right bell + 1000) (arrivals (connected right bell) inputs bell)
arrivals-Spaced_example = arrivals-Spaced right inputs bell refl (omega arith) rooms

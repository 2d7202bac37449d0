-- ===== src/Switch/Queueing.antt =====
-- A switch as a link: each packet that leaves is put into the queue of its wire by `sendPacket`.
use native.Mathlib.Decide.{ℕ_discrete}
use mathlib.Core.List.{append_assoc, append-nil}
use kensv.Prelude.{
  ℕ, ◌+◌, ◌%◌, ◌≤◌, ◌<◌, ◌^◌, ◌≡◌, ◌≢◌, refl, sym, ap, subst, ◌∙◌, Bool, false, not, ◌&&◌, Option,
  some, List, [], ◌∷◌, ◌++◌, map, length, take, All, ◌==◌,
}
use kensv.Prelude.Maybe.{◌>>=◌}
use kensv.NetworkUtil.{array_to_uint64}
use kensv.Packet.{Packet, Allocator}
use kensv.Switch.{Switch, is_target, packet_arrived}
use kensv.Switch.Forward.{keep, or_all, Ready, packet_arrived-Departs}
use kensv.Link.{Link, Effect, packet_to_port, check_queue, queue_of, send_packet}
use kensv.Link.Ports.{checks}
use kensv.Link.Queues.{Sends, send_packet-Sends}
use kensv.Link.Checks.{World, Inv, send-Inv}

-- The calls of `sendPacket`, in order, at the time `now`; `place` are the draws of the evictions.
unfoldable pub send_all :
    (place : ℕ → ℕ) → (now : ℕ) → List (ℕ × Packet) → Link → Option (Link × List Effect)
send_all place now [] l = some (l, [])
send_all place now ((wire, p) ∷ sent) l = do
  (l₁, es) ← send_packet (place wire) wire p now l
  (l₂, es') ← send_all place now sent l₁
  some (l₂, es ++ es')

-- The whole `Switch::packetArrived`. The copies are made before the first is sent: the id of a packet that
-- is evicted in between is not freed before the next copy.
unfoldable pub arrive :
    (in_wire : ℕ)
    → Packet
    → Switch
    → (lost : ℕ → Bool) → (place : ℕ → ℕ) → (now : ℕ) → Allocator
    → Link
    → Option (Allocator × Link × List Effect)
arrive in_wire p s lost place now a l = do
  (a', sent) ← packet_arrived in_wire p s lost a
  (l', es) ← send_all place now sent l
  some (a', l', es)

checks-++ :
    (now : ℕ) (es es' : List Effect) → checks now (es ++ es') ≡ checks now es ++ checks now es'
unfolding checks
checks-++ now [] es' = refl
checks-++ now (packet_to_port port p delay ∷ es) es' = checks-++ now es es'
checks-++ now (check_queue port delay ∷ es) es' =
    ap (λ ps. (port, (now + delay) % 2 ^ 64) ∷ ps) (checks-++ now es es')

-- A queue that is not empty stays so when another packet is sent.
Sends-waits :
    (port now : ℕ) (p : Packet) (l l' : Link) (es : List Effect)
    → Sends port now p l l' es
    → (k : ℕ) → queue_of k l ≢ []
    → queue_of k l' ≢ []
Sends-waits port now p l l' es s k waits = elim (ℕ_discrete k port) [
  | yes it ↦ subst (λ k. queue_of k l' ≢ []) (sym it) s.waits
  | no other ↦ λ e. waits (sym (s.others k other) ∙ e)
]

-- The packets are put into the queues of their wires one after the other, each behind those that wait.
pub data AllSent (now : ℕ) : List (ℕ × Packet) → Link → Link → List Effect → Type 0 where
  all_sent : {l : Link} → AllSent now [] l l []
  then_sends :
      {l l₁ l₂ : Link} {wire : ℕ} {p : Packet} {sent : List (ℕ × Packet)} {es es' : List Effect}
      → Sends wire now p l l₁ es
      → AllSent now sent l₁ l₂ es'
      → AllSent now ((wire, p) ∷ sent) l l₂ (es ++ es')

-- All packets are taken, no check is missing or sent twice, and the queues of their ports are not
-- empty, nor are those that were not.
record Queues (place : ℕ → ℕ) (now : ℕ) (sent : List (ℕ × Packet)) (w : World) : Type 0 where
  link : Link
  effects : List Effect
  taken : send_all place now sent w.link ≡ some (link, effects)
  inv : Inv (record { link = link; pending = w.pending ++ checks now effects })
  each : AllSent now sent w.link link effects
  waits : All (λ d. queue_of d.0 link ≢ []) sent
  others : (k : ℕ) → All (λ d. d.0 ≢ k) sent → queue_of k link ≡ queue_of k w.link
  stays : (k : ℕ) → queue_of k w.link ≢ [] → queue_of k link ≢ []

send_all-Queues :
    (place : ℕ → ℕ) (now : ℕ) (sent : List (ℕ × Packet)) (w : World)
    → now < 2 ^ 64
    → Inv w
    → Queues place now sent w
unfolding send_all checks
send_all-Queues place now [] w small v = record {
  link = w.link;
  effects = [];
  taken = refl;
  inv = rw append-nil v;
  each = all_sent;
  waits = tt;
  others = λ k none_through. refl;
  stays = λ k h. h;
}
send_all-Queues place now ((wire, p) ∷ sent) w small v =
    let (l, es, run, s) =
      send_packet-Sends (place wire) wire now p w.link v.not_one (v.bounded wire) in
    let w₁ : World = record { link = l; pending = w.pending ++ checks now es } in
    let rest = send_all-Queues place now sent w₁ small (send-Inv w wire now p l es small s v) in
    record {
      link = rest.link;
      effects = es ++ rest.effects;
      taken = rw (run, rest.taken) refl;
      inv =
          subst (λ ps. Inv (record { link = rest.link; pending = ps }))
            (append_assoc w.pending (checks now es) (checks now rest.effects)
              ∙ ap (λ ps. w.pending ++ ps) (sym (checks-++ now es rest.effects)))
            rest.inv;
      each = then_sends s rest.each;
      others = λ k (other, more). rest.others k more ∙ s.others k (λ e. other (sym e));
      waits = (rest.stays wire s.waits, rest.waits);
      stays = λ k h. rest.stays k (Sends-waits wire now p w.link l es s k h);
    }

-- A packet of at least six bytes arrives at a switch at a time below 2 ^ 64, while packet ids are left for
-- its copies, in a well-formed state of its queues with their pending checks. Then no assertion fails: for each
-- wire that the packet is for, a copy of its size, and with its bytes if the switch is reliable, is put into the
-- queue of that wire, behind those that wait; the queues of all other wires stay; the queues of these
-- wires are not empty; and the state is well-formed again, with exactly one check pending for each port with
-- waiting packets.
pub arrive-Inv :
    (in_wire : ℕ) (p : Packet) (s : Switch) (lost : ℕ → Bool) (place : ℕ → ℕ) (now : ℕ)
    (a : Allocator) (w : World)
    → 6 ≤ length p.buffer
    → Ready (length s.ports) a
    → now < 2 ^ 64
    → Inv w
    → (a' : Allocator) × (sent : List (ℕ × Packet)) × (l : Link) × (es : List Effect) × (arrive
          in_wire p s lost place now a w.link
        ≡ some (a', l, es))
      × (map (λ d. d.0) sent
          ≡ or_all
              (keep
                (λ k. not (in_wire == k) && is_target (array_to_uint64 (take 6 p.buffer)) k s)
                s.ports)
              (keep (λ k. not (in_wire == k)) s.ports))
      × All (λ d. length d.1.buffer ≡ length p.buffer) sent
      × (s.unreliable ≡ false → All (λ d. d.1.buffer ≡ p.buffer) sent)
      × AllSent now sent w.link l es
      × ((k : ℕ) → All (λ d. d.0 ≢ k) sent → queue_of k l ≡ queue_of k w.link)
      × All (λ d. queue_of d.0 l ≢ []) sent
      × Inv (record { link = l; pending = w.pending ++ checks now es })
unfolding arrive
arrive-Inv in_wire p s lost place now a w header ready small v =
    let departs = packet_arrived-Departs in_wire p s lost a header ready in
    let queues = send_all-Queues place now departs.sent w small v in
    (
      departs.allocator,
      departs.sent,
      queues.link,
      queues.effects,
      rw (departs.leaves, queues.taken) refl,
      departs.through,
      departs.sizes,
      λ reliable. departs.bytes (ap not reliable),
      queues.each,
      queues.others,
      queues.waits,
      queues.inv,
    )

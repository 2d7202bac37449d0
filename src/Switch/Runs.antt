-- ===== src/Switch/Runs.antt =====
-- Runs of a switch: the packets from its wires and the checks of its queues, in any order.
use kensv.Prelude.{ℕ, ◌≤◌, ◌≡◌, ◌≢◌, refl, subst, Bool, Option, some, List, ◌∷◌, ◌++◌, length}
use kensv.Packet.{Packet, Allocator}
use kensv.Link.{Link, Effect, Message, from_wire, check, message_received}
use kensv.Link.Ports.{checks}
use kensv.Link.Queues.{on_check_queue-Serves}
use kensv.Link.Checks.{World, Inv, Fits, fired, serve-Inv}
use kensv.Link.Runs.{start, start-Inv}
use kensv.Switch.{Switch}
use kensv.Switch.Forward.{Ready}
use kensv.Switch.Queueing.{arrive, arrive-Inv}

-- `messageReceived` of a switch; the draws of its losses and evictions are arguments.
unfoldable pub switch_received :
    Switch
    → (lost : ℕ → Bool) → (place : ℕ → ℕ) → (from : ℕ) → Message
    → (now : ℕ) → Allocator
    → Link
    → Option (Allocator × Link × List Effect)
switch_received s lost place from m now a l =
    message_received (λ from p a l. arrive from p s lost place now a l) from m now a l

-- A message that may come at the time `now`: a packet of at least six bytes, while ids are left for its
-- copies, or a pending check at its time. The last index is what stays pending.
pub data Coming (s : Switch) (w : World) (now : ℕ) (a : Allocator)
    : Message → List (ℕ × ℕ) → Type 0 where
  a_packet :
      (p : Packet)
      → 6 ≤ length p.buffer
      → Ready (length s.ports) a
      → Coming s w now a (from_wire p) w.pending
  a_check :
      (before after : List (ℕ × ℕ)) (port : ℕ)
      → w.pending ≡ before ++ (port, now) ∷ after
      → Coming s w now a (check port) (before ++ after)

-- What a message leads to. Between two messages other modules may take and free packet ids.
pub data Run (s : Switch) (limit : ℕ) : World → Type 0 where
  created : Run s limit (start limit)
  step :
      {w : World} {m : Message} {rest : List (ℕ × ℕ)} {a a' : Allocator} {l : Link}
      {es : List Effect} (lost : ℕ → Bool) (place : ℕ → ℕ) (from now : ℕ)
      → Run s limit w
      → Fits now w.link
      → Coming s w now a m rest
      → switch_received s lost place from m now a w.link ≡ some (a', l, es)
      → Run s limit (record { link = l; pending = rest ++ checks now es })

-- The message is handled, and the invariant of the link holds afterwards.
abbrev Handled :
    Switch → (ℕ → Bool) → (ℕ → ℕ) → ℕ → Message → ℕ → Allocator → World → List (ℕ × ℕ) → Type 0
Handled s lost place from m now a w rest =
    (a' : Allocator) × (l : Link) × (es : List Effect) × (switch_received s lost place from m now a
        w.link
      ≡ some (a', l, es))
    × Inv (record { link = l; pending = rest ++ checks now es })

handles :
    (s : Switch) (lost : ℕ → Bool) (place : ℕ → ℕ) (from : ℕ) {m : Message} (now : ℕ)
    (a : Allocator) (w : World) {rest : List (ℕ × ℕ)}
    → Fits now w.link
    → Coming s w now a m rest
    → Inv w
    → Handled s lost place from m now a w rest
unfolding switch_received message_received
handles s lost place from now a w fits (a_packet p header ready) v =
    let (a', sent, l, es, run, through, sizes, bytes, each, others, waits, inv) =
      arrive-Inv from p s lost place now a w header ready fits.0 v in
    (a', l, es, run, inv)
handles s lost place from now a w fits (a_check before after port split) v =
    let (p, rest, q, due, none_left) = fired w before after port now split fits v in
    let (l, es, served, serves) =
      on_check_queue-Serves port now p rest w.link q due (fits.1 port p rest q) in
    (
      a,
      l,
      es,
      rw served refl,
      serve-Inv w before after port now p rest l es split q none_left (fits.1 port p rest q) serves
          v,
    )

Run-Inv : {s : Switch} {limit : ℕ} {w : World} → limit ≢ 1 → Run s limit w → Inv w
Run-Inv {s} {limit} not_one created = start-Inv limit not_one
Run-Inv {s} {limit} not_one
      (step {w} {m} {rest} {a} {a'} {l} {es} lost place from now run fits coming received) =
    let (b, l', es', received', inv) =
      handles s lost place from now a w fits coming (Run-Inv not_one run) in
    let same_link : l' ≡ l = cc in
    let same_effects : es' ≡ es = cc in
    subst (λ l. Inv (record { link = l; pending = rest ++ checks now es })) same_link
      (subst (λ es. Inv (record { link = l'; pending = rest ++ checks now es })) same_effects inv)

-- In every run of a switch whose queue limit is not 1, from its start, while the clock has room for a
-- transmission: every message that comes, a packet from a wire or a check that is due, in any
-- order, is handled without a failed assertion, and leaves each queue within its limit, with exactly one pending check for each
-- port with waiting packets.
pub switch_handles :
    (s : Switch) (limit : ℕ) (w : World) (lost : ℕ → Bool) (place : ℕ → ℕ) (from : ℕ) (m : Message)
    (now : ℕ) (a : Allocator) (rest : List (ℕ × ℕ))
    → limit ≢ 1
    → Run s limit w
    → Fits now w.link
    → Coming s w now a m rest
    → (a' : Allocator) × (l : Link) × (es : List Effect) × (switch_received s lost place from m now
          a w.link
        ≡ some (a', l, es))
      × Inv (record { link = l; pending = rest ++ checks now es })
switch_handles s limit w lost place from m now a rest not_one run fits coming =
    handles s lost place from now a w fits coming (Run-Inv not_one run)

-- ===== src/Wire/Order.antt =====
-- The order in which the packets of one direction arrive at the other end of a wire.
use kensv.Prelude.{
  ℕ, ◌+◌, ◌^◌, ◌≤◌, ◌<◌, ◌≡◌, ◌≢◌, refl, sym, ◌∙◌, true, false, Option, none, some, List, [], ◌∷◌,
  ltb, ◌==◌, if◌then◌else◌, arith, Option-cases, ◌⊎◌, inl, inr, subst,
}
use kensv.Packet.{Packet}
use kensv.Wire.{
  End, left, right, Wire, Sent, connected, next_available, set_next_available, destination,
  trans_delay, end_of, delay_of, message_received,
}

-- A packet that a module sends into the wire at a time.
pub record Input : Type 0 where
  pub from : ℕ
  pub packet : Packet
  pub now : ℕ

-- A packet that arrives at an end, and the time that its bits take.
pub record Arrival : Type 0 where
  pub at : ℕ
  pub takes : ℕ

abbrev pub after : Input → Wire → Wire
after i w = (message_received i.from i.packet i.now w).0

-- What the packet received-Adds to the arrivals at the given module.
unfoldable pub arrival : ℕ → ℕ → Option Sent → ℕ → List Arrival → List Arrival
arrival to now none takes rest = rest
arrival to now (some s) takes rest =
    if s.to == to then record { at = now + s.delay; takes = takes } ∷ rest else rest

-- The arrivals that a sequence of packets has at the given module.
unfoldable pub arrivals : ℕ → List Input → Wire → List Arrival
arrivals to [] w = []
arrivals to (i ∷ is) w =
    arrival to i.now ((message_received i.from i.packet i.now w).1) (trans_delay w.bps i.packet)
      (arrivals to is (after i w))

-- Every arrival is at least the transmission of its packet after the one before it.
abbrev pub Spaced : ℕ → List Arrival → Type 0
Spaced t [] = Unit
Spaced t (a ∷ later) = (t + a.takes ≤ a.at) × Spaced a.at later

-- The clock has room for what a packet needs.
abbrev pub Room : Input → Wire → Type 0
Room i w =
    (i.now < 2 ^ 64)
    × ((to : End)
        → destination i.from w ≡ some to
        → (if ltb (next_available to w) i.now then i.now else next_available to w)
            + trans_delay w.bps i.packet
            + w.propagation_delay
          < 2 ^ 64)

abbrev pub Rooms : List Input → Wire → Type 0
Rooms [] w = Unit
Rooms (i ∷ is) w = Room i w × Rooms is (after i w)

-- The message arrives when the transmission has ended and the bits have gone along the wire.
arrival_time :
    (to : End) (p : Packet) (now : ℕ) (w : Wire)
    → w.limit_speed ≡ true
    → now < 2 ^ 64
    → (if ltb (next_available to w) now then now else next_available to w)
        + trans_delay w.bps p
        + w.propagation_delay
      < 2 ^ 64
    → (now + delay_of to p now w ≡ end_of to p now w + w.propagation_delay)
      × (next_available to w + trans_delay w.bps p ≤ end_of to p now w)
unfolding delay_of end_of
arrival_time to p now w limited small room = rw limited (ground arith, ground arith)

received :
    (i : Input) (w : Wire) (d : End)
    → destination i.from w ≡ some d
    → message_received i.from i.packet i.now w ≡ (
      set_next_available d (end_of d i.packet i.now w) w,
      some (record { to = connected d w; packet = i.packet; delay = delay_of d i.packet i.now w }),
    )
unfolding message_received
received i w d e = rw (e, message_received) refl

not_received :
    (i : Input) (w : Wire)
    → destination i.from w ≡ none
    → message_received i.from i.packet i.now w ≡ (w, none)
unfolding message_received
not_received i w e = rw (e, message_received) refl

-- The settings, and the availability of one end.
record Kept (to : End) (time : ℕ) (w w' : Wire) : Type 0 where
  limit_speed : w'.limit_speed ≡ w.limit_speed
  connected_left : w'.connected_left ≡ w.connected_left
  connected_right : w'.connected_right ≡ w.connected_right
  propagation_delay : w'.propagation_delay ≡ w.propagation_delay
  next : next_available to w' ≡ time

set_next_available-same : (d : End) (t : ℕ) (w : Wire) → Kept d t w (set_next_available d t w)
unfolding set_next_available next_available
set_next_available-same left t w = record {
  limit_speed = refl;
  connected_left = refl;
  connected_right = refl;
  propagation_delay = refl;
  next = refl;
}
set_next_available-same right t w = record {
  limit_speed = refl;
  connected_left = refl;
  connected_right = refl;
  propagation_delay = refl;
  next = refl;
}

-- The other end, of which another module is connected.
set_next_available-other :
    (d to : End) (t : ℕ) (w : Wire)
    → w.connected_left ≢ w.connected_right
    → (d ≡ to)
      ⊎ (Kept to (next_available to w) w (set_next_available d t w)
          × (connected d w ≢ connected to w))
unfolding set_next_available next_available connected
set_next_available-other left left t w ne = inl refl
set_next_available-other left right t w ne = inr (
  record {
    limit_speed = refl;
    connected_left = refl;
    connected_right = refl;
    propagation_delay = refl;
    next = refl;
  },
  ne,
)
set_next_available-other right left t w ne = inr (
  record {
    limit_speed = refl;
    connected_left = refl;
    connected_right = refl;
    propagation_delay = refl;
    next = refl;
  },
  λ e. ne (sym e),
)
set_next_available-other right right t w ne = inl refl

connected-Kept :
    (to : End) {next : ℕ} {w w' : Wire} → Kept to next w w' → connected to w' ≡ connected to w
unfolding connected
connected-Kept left k = k.connected_left
connected-Kept right k = k.connected_right

-- What one packet does to the arrivals at an end, by its result.
abbrev Adds : (to : End) (i : Input) (w : Wire) → Wire × Option Sent → Type 0
Adds to i w (w', s) =
    (time : ℕ) × Kept to time w w'
    × ((later : List Arrival)
        → Spaced (next_available to w' + w.propagation_delay) later
        → Spaced (next_available to w + w.propagation_delay)
            (arrival (connected to w) i.now s (trans_delay w.bps i.packet) later))

Adds-same :
    (d : End) (i : Input) (w : Wire)
    → w.limit_speed ≡ true
    → Room i w
    → destination i.from w ≡ some d
    → Adds d i w (
      set_next_available d (end_of d i.packet i.now w) w,
      some (record { to = connected d w; packet = i.packet; delay = delay_of d i.packet i.now w }),
    )
unfolding arrival
Adds-same d i w limited (small, room) e =
    let (on_time, ends) = arrival_time d i.packet i.now w limited small (room d e) in
    let kept = set_next_available-same d (end_of d i.packet i.now w) w in
    let same : (connected d w == connected d w) ≡ true = ground arith in
    (_, kept, λ later s. rw same (rw on_time (omega arith, rw (← kept.next) s)))

Adds-other :
    (d to : End) (i : Input) (w : Wire)
    → Kept to (next_available to w) w (set_next_available d (end_of d i.packet i.now w) w)
    → connected d w ≢ connected to w
    → Adds to i w (
      set_next_available d (end_of d i.packet i.now w) w,
      some (record { to = connected d w; packet = i.packet; delay = delay_of d i.packet i.now w }),
    )
unfolding arrival
Adds-other d to i w kept ne =
    let other : (connected d w == connected to w) ≡ false = ground arith in
    (_, kept, λ later s. rw other (rw (← kept.next) s))

received-Adds :
    (to : End) (i : Input) (w : Wire)
    → w.limit_speed ≡ true
    → w.connected_left ≢ w.connected_right
    → Room i w
    → Adds to i w (message_received i.from i.packet i.now w)
unfolding arrival
received-Adds to i w limited ne room = elim (Option-cases (destination i.from w)) [
  | inl e ↦ subst (Adds to i w) (sym (not_received i w e)) (
    _,
    record {
      limit_speed = refl;
      connected_left = refl;
      connected_right = refl;
      propagation_delay = refl;
      next = refl;
    },
    λ later s. s,
  )
  | inr (d, e) ↦
      subst (Adds to i w) (sym (received i w d e))
        (elim (set_next_available-other d to (end_of d i.packet i.now w) w ne) [
          | inl same ↦
              subst
                (λ to. Adds to i w (
                  set_next_available d (end_of d i.packet i.now w) w,
                  some (record {
                    to = connected d w;
                    packet = i.packet;
                    delay = delay_of d i.packet i.now w;
                  }),
                ))
                same (Adds-same d i w limited room e)
          | inr (kept, other) ↦ Adds-other d to i w kept other
        ])
]

-- Packets that modules send into a wire with limited speed between two different modules, in any
-- order, while the clock has room for them, arrive at each end one after the other: no packet
-- overtakes another, each arrives at least the time of its own bits after the one before it.
pub arrivals-Spaced :
    (to : End) (is : List Input) (w : Wire)
    → w.limit_speed ≡ true
    → w.connected_left ≢ w.connected_right
    → Rooms is w
    → Spaced (next_available to w + w.propagation_delay) (arrivals (connected to w) is w)
unfolding arrivals
arrivals-Spaced to [] w limited ne rooms = tt
arrivals-Spaced to (i ∷ is) w limited ne (room, rooms) =
    let (next, kept, add) = received-Adds to i w limited ne room in
    let later =
      arrivals-Spaced to is (after i w) (kept.limit_speed ∙ limited)
        (λ e. ne (sym kept.connected_left ∙ e ∙ kept.connected_right)) rooms in
    add _ (
      subst
        (λ m.
          Spaced (next_available to (after i w) + w.propagation_delay) (arrivals m is (after i w)))
        (connected-Kept to kept)
        (subst
          (λ d.
            Spaced (next_available to (after i w) + d)
              (arrivals (connected to (after i w)) is (after i w)))
          kept.propagation_delay later))

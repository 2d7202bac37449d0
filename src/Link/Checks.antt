-- ===== src/Link/Checks.antt =====
-- A link together with its pending `CHECK_QUEUE` messages: every waiting packet has a check on the
-- way, and no assertion fails.
use mathlib.Core.List.{append-nil}
use native.Mathlib.Decide.{ℕ_discrete}
use kensv.Prelude.{
  ℕ, ◌+◌, ◌^◌, ◌≤◌, ◌<◌, ◌≡◌, ◌≢◌, subst, some, List, [], ◌∷◌, ◌++◌, length, ◌==◌, arith,
}
use kensv.Packet.{Packet}
use kensv.Link.{
  Link, Effect, set_link_speed, queue_of, available_at, trans_delay, wait_time, send_packet,
  on_check_queue,
}
use kensv.Link.Ports.{
  checks, times_of, times_of-append, times_of-checks_self, times_of-checks_other, times_of-served,
  times_of-served_other, sent_port, times_of-skip, fired_port, served_port,
}
use kensv.Link.Queues.{PortOk, Bounded, Sends, Serves, send_packet-Sends, on_check_queue-Serves}

-- The link, and the checks that it has sent to itself: port and time of delivery.
pub record World : Type 0 where
  pub link : Link
  pub pending : List (ℕ × ℕ)

-- A packet is sent through a port; a check arrives at its time, from any place among the pending
-- ones; the speed is set anew, at the time `now`.
pub data Step (w : World) (now : ℕ) : World → Type 0 where
  arrives :
      (place port : ℕ) (p : Packet) {l : Link} {es : List Effect}
      → send_packet place port p now w.link ≡ some (l, es)
      → Step w now (record { link = l; pending = w.pending ++ checks now es })
  fires :
      (before after : List (ℕ × ℕ)) (port : ℕ) {l : Link} {es : List Effect}
      → w.pending ≡ before ++ (port, now) ∷ after
      → on_check_queue port now w.link ≡ some (l, es)
      → Step w now (record { link = l; pending = (before ++ after) ++ checks now es })
  speeds : (bps : ℕ) → Step w now (record w { link = set_link_speed bps w.link })

-- Transmissions that begin now end before the clock overflows.
abbrev pub Fits : ℕ → Link → Type 0
Fits now l =
    (now < 2 ^ 64)
    × ((port : ℕ) (p : Packet) (rest : List Packet)
        → queue_of port l ≡ p ∷ rest
        → now + trans_delay l.bps p < 2 ^ 64)

pub record Inv (w : World) : Type 0 where
  pub not_one : w.link.max_queue_length ≢ 1
  pub bounded : (port : ℕ) → Bounded w.link.max_queue_length (queue_of port w.link)
  pub ports :
      (port : ℕ)
      → PortOk (queue_of port w.link) (available_at port w.link) (times_of port w.pending)
  pub in_range : (port : ℕ) → available_at port w.link < 2 ^ 64

pub available_at-congr :
    (k : ℕ) (l l' : Link)
    → l.next_available ≡ l'.next_available
    → available_at k l ≡ available_at k l'
unfolding available_at
available_at-congr k l l' e = rw e

pub send-Inv :
    (w : World) (port now : ℕ) (p : Packet) (l : Link) (es : List Effect)
    → now < 2 ^ 64
    → Sends port now p w.link l es
    → Inv w
    → Inv (record { link = l; pending = w.pending ++ checks now es })
unfolding queue_of
send-Inv w port now p l es small s v = record {
  not_one = rw s.limit v.not_one;
  bounded = λ k. rw s.limit (elim (ℕ_discrete k port) [
    | yes e ↦ rw e s.bounded
    | no ne ↦ rw (s.others k ne) (v.bounded k)
  ]);
  ports = λ k.
      rw
        (
          available_at-congr k l w.link s.times,
          times_of-append k w.pending (checks now es),
          s.checks,
        )
        (elim (ℕ_discrete k port) [
          | yes e ↦
              rw
                (
                  e,
                  times_of-checks_self (length (queue_of port w.link) == 0) port now
                      (wait_time (available_at port w.link) now),
                )
                (sent_port (queue_of port w.link) (queue_of port l) _ now (times_of port w.pending)
                  s.waits (v.in_range port) small (v.ports port))
          | no ne ↦
              rw
                (
                  s.others k ne,
                  times_of-checks_other (length (queue_of port w.link) == 0) k port now
                      (wait_time (available_at port w.link) now) ne,
                  append-nil,
                )
                (v.ports k)
        ]);
  in_range = λ k. rw (available_at-congr k l w.link s.times) (v.in_range k);
}

pub serve-Inv :
    (w : World) (before after : List (ℕ × ℕ)) (port now : ℕ) (p : Packet) (rest : List Packet)
    (l : Link) (es : List Effect)
    → w.pending ≡ before ++ (port, now) ∷ after
    → queue_of port w.link ≡ p ∷ rest
    → times_of port (before ++ after) ≡ []
    → now + trans_delay w.link.bps p < 2 ^ 64
    → Serves port now p rest w.link l es
    → Inv w
    → Inv (record { link = l; pending = (before ++ after) ++ checks now es })
unfolding queue_of
serve-Inv w before after port now p rest l es split q none_left fits s v = record {
  not_one = rw s.limit v.not_one;
  bounded = λ k. rw s.limit (elim (ℕ_discrete k port) [
    | yes e ↦ λ some_limit.
        let full = rw q at (v.bounded port some_limit) in rw (e, s.own) (omega (arith, full))
    | no ne ↦ rw (s.others k ne) (v.bounded k)
  ]);
  ports = λ k.
      rw (times_of-append k (before ++ after) (checks now es), s.effects)
        (elim (ℕ_discrete k port) [
          | yes e ↦
              rw
                (
                  e,
                  s.own,
                  s.next,
                  none_left,
                  times_of-served (length rest == 0) port now (trans_delay w.link.bps p) p,
                )
                (served_port rest now (trans_delay w.link.bps p) fits)
          | no ne ↦
              rw
                (
                  s.others k ne,
                  s.other_times k ne,
                  times_of-served_other (length rest == 0) k port now (trans_delay w.link.bps p) p
                      ne,
                  append-nil,
                  ← times_of-skip k port now before after ne,
                  ← split,
                )
                (v.ports k)
        ]);
  in_range = λ k. elim (ℕ_discrete k port) [
    | yes e ↦ rw (e, s.next) fits
    | no ne ↦ rw (s.other_times k ne) (v.in_range k)
  ];
}

-- A check that arrives finds a packet to pass on.
pub fired :
    (w : World) (before after : List (ℕ × ℕ)) (port now : ℕ)
    → w.pending ≡ before ++ (port, now) ∷ after
    → Fits now w.link
    → Inv w
    → (p : Packet) × (rest : List Packet) × (queue_of port w.link ≡ p ∷ rest)
      × (available_at port w.link ≤ now)
      × (times_of port (before ++ after) ≡ [])
fired w before after port now split fits v =
    fired_port before after port now (available_at port w.link) (queue_of port w.link) (
      subst (λ ps. PortOk (queue_of port w.link) (available_at port w.link) (times_of port ps))
        split (v.ports port))

-- While the clock has room for a transmission, every step keeps the invariant: with a limit other
-- than 1, each queue is within the limit, a port with waiting packets has exactly one pending
-- check, not before the port is available, and a port without has none.
pub Step-Inv : {w : World} {now : ℕ} {w' : World} → Step w now w' → Fits now w.link → Inv w → Inv w'
Step-Inv {w} {now = now} (arrives place port p {l} {es} run) (small, fits) v =
    let (l', es', run', s) = send_packet-Sends place port now p w.link v.not_one (v.bounded port) in
    let same_link : l' ≡ l = cc in
    let same_effects : es' ≡ es = cc in
    send-Inv w port now p l es small
      (subst (λ l. Sends port now p w.link l es) same_link
        (subst (Sends port now p w.link l') same_effects s))
      v
Step-Inv {w} {now = now} (fires before after port {l} {es} split run) fits v =
    let (p, rest, q, due, none_left) = fired w before after port now split fits v in
    let (l', es', run', s) =
      on_check_queue-Serves port now p rest w.link q due (fits.1 port p rest q) in
    let same_link : l' ≡ l = cc in
    let same_effects : es' ≡ es = cc in
    serve-Inv w before after port now p rest l es split q none_left (fits.1 port p rest q)
      (subst (λ l. Serves port now p rest w.link l es) same_link
        (subst (Serves port now p rest w.link l') same_effects s))
      v
Step-Inv {w} {now = now} (speeds bps) fits v = record {
  not_one = unfold set_link_speed in v.not_one;
  bounded = λ k. unfold set_link_speed in unfold queue_of in v.bounded k;
  ports = λ k. unfold set_link_speed in unfold queue_of in unfold available_at in v.ports k;
  in_range = λ k. unfold set_link_speed in unfold available_at in v.in_range k;
}

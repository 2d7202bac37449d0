-- ===== src/Link/Runs.antt =====
-- Runs of a link from its start, and what a limit of 1 does.
use mathlib.Core.List.{append-nil}
use kensv.Prelude.{
  ◌+◌, ◌<◌, ◌^◌, ◌≤◌, leb, ℕ, zero, suc, ◌≡◌, ◌≢◌, refl, ap, ◌∙◌, ◌||◌, subst, inl, inr, Bool-cases,
  if◌then◌else◌, true, none, some, List, [], ◌∷◌, ◌++◌, ltb, ◌==◌, arith,
}
use kensv.Prelude.Table.{lookup}
use kensv.Packet.{Packet}
use kensv.Link.{
  trans_delay, Link, Effect, check_queue, init, set_queue_size, set_link_speed, queue_of,
  available_at, send_packet, on_check_queue, evict, wait_time, set_queue, erase_at,
}
use kensv.Link.Queues.{queue_of-set_queue, Sends, Serves, send_packet-Sends, on_check_queue-Serves}
use kensv.Link.Ports.{times_of}
use kensv.Link.Order.{Sub, ends, skips, Sub-refl, Sub-trans, Sub-snoc}
use kensv.Link.Checks.{
  World, Step, arrives, fires, speeds, Inv, Fits, Step-Inv, fired, available_at-congr,
}

-- A link that was created with the given limit.
unfoldable pub start : ℕ → World
start limit = record { link = set_queue_size limit init; pending = [] }

-- The worlds that a link reaches by steps that the clock has room for.
pub data Run (limit : ℕ) : World → Type 0 where
  created : Run limit (start limit)
  step : {w w' : World} (now : ℕ) → Run limit w → Fits now w.link → Step w now w' → Run limit w'

pub start-Inv : (limit : ℕ) → limit ≢ 1 → Inv (start limit)
unfolding start lookup
start-Inv limit not_one = record {
  not_one = unfold set_queue_size in not_one;
  bounded = λ k some_limit. unfold queue_of in unfold set_queue_size in omega arith;
  ports = λ k.
      unfold queue_of in unfold available_at in unfold set_queue_size in unfold times_of in refl;
  in_range = λ k. unfold available_at in unfold set_queue_size in omega arith;
}

pub Run-Inv : {limit : ℕ} {w : World} → limit ≢ 1 → Run limit w → Inv w
Run-Inv {limit} not_one created = start-Inv limit not_one
Run-Inv not_one (step now run fits s) = Step-Inv s fits (Run-Inv not_one run)

-- The packet that a step sends through a port.
unfoldable pub sent_by :
    {w : World} {now : ℕ} {w' : World} → (port : ℕ) → Step w now w' → List Packet
sent_by port (arrives place k p sends) = if k == port then p ∷ [] else []
sent_by port (fires before after k split serves) = []
sent_by port (speeds bps) = []

-- The packets that were sent through a port in a run, the first one first.
unfoldable pub sent_in : {limit : ℕ} {w : World} → (port : ℕ) → Run limit w → List Packet
sent_in port created = []
sent_in port (step now run fits s) = sent_in port run ++ sent_by port s

Sends-Sub :
    (port k now : ℕ) (p : Packet) (l l' : Link) (es : List Effect) (sent : List Packet)
    → Sends k now p l l' es
    → Sub (queue_of port l) sent
    → Sub (queue_of port l') (sent ++ (if k == port then p ∷ [] else []))
Sends-Sub port k now p l l' es sent s order = elim (Bool-cases (k == port)) [
  | inl it ↦
      let same : k ≡ port = ground arith in
      let (kept, own, sub, _) = s.behind in
      let own' : queue_of port l' ≡ kept ++ p ∷ [] =
        subst (λ k. queue_of k l' ≡ kept ++ p ∷ []) same own in
      let sub' = subst (λ k. Sub kept (queue_of k l)) same sub in
      rw (it, own') (Sub-snoc p (Sub-trans sub' order))
  | inr other ↦ rw (other, append-nil, s.others port (ground arith)) order
]

Serves-Sub :
    (port k now : ℕ) (p : Packet) (rest : List Packet) (l l' : Link) (es : List Effect)
    (sent : List Packet)
    → queue_of k l ≡ p ∷ rest
    → Serves k now p rest l l' es
    → Sub (queue_of port l) sent
    → Sub (queue_of port l') sent
Serves-Sub port k now p rest l l' es sent q s order = elim (Bool-cases (k == port)) [
  | inl it ↦
      let same : k ≡ port = ground arith in
      let own' = subst (λ k. queue_of k l' ≡ rest) same s.own in
      let q' = subst (λ k. queue_of k l ≡ p ∷ rest) same q in
      rw own' (Sub-trans (skips p (Sub-refl rest)) (rw q' at order))
  | inr other ↦ rw (s.others port (ground arith)) order
]

Step-Sub :
    {w : World} {now : ℕ} {w' : World} (port : ℕ) (sent : List Packet) (s : Step w now w')
    → Fits now w.link
    → Inv w
    → Sub (queue_of port w.link) sent
    → Sub (queue_of port w'.link) (sent ++ sent_by port s)
unfolding sent_by
Step-Sub {w} {now = now} port sent (arrives place k p {l} {es} sends) fits v order =
    let (l', es', sends', s) = send_packet-Sends place k now p w.link v.not_one (v.bounded k) in
    let same_link : l' ≡ l = cc in
    subst (λ l. Sub (queue_of port l) (sent ++ (if k == port then p ∷ [] else []))) same_link
      (Sends-Sub port k now p w.link l' es' sent s order)
Step-Sub {w} {now = now} port sent (fires before after k {l} {es} split serves) fits v order =
    let (p, rest, q, due, none_left) = fired w before after k now split fits v in
    let (l', es', serves', s) =
      on_check_queue-Serves k now p rest w.link q due (fits.1 k p rest q) in
    let same_link : l' ≡ l = cc in
    rw append-nil (
      subst (λ l. Sub (queue_of port l) sent) same_link
        (Serves-Sub port k now p rest w.link l' es' sent q s order))
Step-Sub {w} {now = now} port sent (speeds bps) fits v order =
    rw append-nil (unfold set_link_speed in unfold queue_of in order)

-- The packets that wait for a port are in the order in which they were sent.
pub in_order :
    {limit : ℕ} {w : World} (port : ℕ)
    → limit ≢ 1
    → (run : Run limit w) → Sub (queue_of port w.link) (sent_in port run)
unfolding sent_in start queue_of set_queue_size lookup
in_order port not_one created = ends
in_order port not_one (step now run fits s) =
    Step-Sub port (sent_in port run) s fits (Run-Inv not_one run) (in_order port not_one run)

-- In every run of a link whose queue limit is not 1, while the clock has room for a transmission:
-- a check that arrives, from any place among the pending ones, finds packets that wait, in the order
-- in which they were sent through the port in this run, and passes on the first of them, the one that
-- waited longest; no assertion fails.
pub check_passes_on :
    {limit : ℕ} {w : World} (now port : ℕ) (before after : List (ℕ × ℕ))
    → limit ≢ 1
    → (run : Run limit w) → Fits now w.link
    → w.pending ≡ before ++ (port, now) ∷ after
    → (p : Packet) × (rest : List Packet) × (l : Link) × (es : List Effect) × (queue_of port w.link
        ≡ p ∷ rest)
      × Sub (p ∷ rest) (sent_in port run)
      × (on_check_queue port now w.link ≡ some (l, es))
      × Serves port now p rest w.link l es
check_passes_on {w = w} now port before after not_one run fits split =
    let (p, rest, q, due, none_left) =
      fired w before after port now split fits (Run-Inv not_one run) in
    let (l, es, served, s) =
      on_check_queue-Serves port now p rest w.link q due (fits.1 port p rest q) in
    let order = rw q at (in_order port not_one run) in (p, rest, l, es, q, order, served, s)

-- In every run of a link whose queue limit is not 1, a packet that is sent is taken into its
-- queue, behind those that stay there, and the queue stays within the limit; no assertion fails, a check is sent exactly if the
-- queue was empty, and the other queues stay.
pub send_takes :
    {limit : ℕ} {w : World} (place now port : ℕ) (p : Packet)
    → limit ≢ 1
    → Run limit w
    → (l : Link) × (es : List Effect) × (send_packet place port p now w.link ≡ some (l, es))
      × Sends port now p w.link l es
send_takes {w = w} place now port p not_one run =
    let v = Run-Inv not_one run in
    send_packet-Sends place port now p w.link v.not_one (v.bounded port)

evict_one : (place : ℕ) (p : Packet) → evict place 1 (p ∷ []) ≡ []
unfolding evict erase_at
evict_one zero p = refl
evict_one (suc place) p = let above : leb 1 (suc place) ≡ true = ground arith in rw above refl

-- A second check is sent for the packet that replaces the waiting one.
limit_one_checks :
    (place port now : ℕ) (p q : Packet) (l : Link)
    → l.max_queue_length ≡ 1
    → queue_of port l ≡ p ∷ []
    → (l' : Link) × (send_packet place port q now l
        ≡ some (l', check_queue port (wait_time (available_at port l) now) ∷ []))
      × (queue_of port l' ≡ q ∷ [])
      × (l'.next_available ≡ l.next_available)
      × (l'.bps ≡ l.bps)
unfolding send_packet
limit_one_checks place port now p q l one waits =
    let kept : evict place l.max_queue_length (queue_of port l) ≡ [] =
      ap (λ n. evict place n (queue_of port l)) one
      ∙ ap (evict place 1) waits
      ∙ evict_one place p in
    let room : ((l.max_queue_length == 0) || ltb (0) l.max_queue_length) ≡ true =
      ground (arith, one) in
    (
      set_queue port (q ∷ []) l,
      rw (kept, room) refl,
      rw queue_of-set_queue (ground arith),
      unfold set_queue in refl,
      unfold set_queue in refl,
    )

on_check_queue-none :
    (port now : ℕ) (l : Link) → queue_of port l ≡ [] → on_check_queue port now l ≡ none
unfolding on_check_queue
on_check_queue-none port now l empty = rw (empty, on_check_queue) refl

-- With a limit of 1, where one packet waits for a port, a packet that is sent replaces it and has
-- a second check sent. A check at a time at which the port is available and the clock has room
-- passes the packet on, and any later check finds the queue empty and fails the assertion.
pub limit_one_fails :
    (place port now then_ later : ℕ) (p q : Packet) (l : Link)
    → l.max_queue_length ≡ 1
    → queue_of port l ≡ p ∷ []
    → available_at port l ≤ then_
    → then_ + trans_delay l.bps q < 2 ^ 64
    → (l' : Link) × (l'' : Link) × (es : List Effect) × (send_packet place port q now l
        ≡ some (l', check_queue port (wait_time (available_at port l) now) ∷ []))
      × (on_check_queue port then_ l' ≡ some (l'', es))
      × (on_check_queue port later l'' ≡ none)
limit_one_fails place port now then_ later p q l one waits due fits =
    let (l', sent, holds, times, speed) = limit_one_checks place port now p q l one waits in
    let (l'', es, run, s) =
      on_check_queue-Serves port then_ q [] l' holds (rw (available_at-congr port l' l times) due)
        (rw speed fits) in
    (l', l'', es, sent, run, on_check_queue-none port later l'' s.own)

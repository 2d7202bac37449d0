-- ===== src/Link/Queues.antt =====
-- One port of a link: its queue, the time at which it is available, and its pending checks.
use native.Mathlib.Nat.{mod-eq_of_lt}
use kensv.Prelude.{
  ℕ, zero, suc, ◌+◌, ◌-◌, ◌%◌, ◌^◌, ◌≤◌, ◌<◌, ◌≡◌, ◌≢◌, refl, true, false, some, List, [], ◌∷◌,
  ◌++◌, length, ltb, leb, ◌||◌, ◌==◌, if◌then◌else◌, arith, length-append,
}
use kensv.Prelude.Table.{assign, lookup-assign}
use kensv.Packet.{Packet}
use kensv.Link.Order.{Sub, Sub-evict}
use kensv.Link.{
  Link, Effect, packet_to_port, check_queue, queue_of, available_at, set_queue, trans_delay,
  erase_at, evict, wait_time, send_packet, serve, on_check_queue,
}

pub queue_of-set_queue :
    (port k : ℕ) (q : List Packet) (l : Link)
    → queue_of k (set_queue port q l) ≡ (if port == k then q else queue_of k l)
unfolding queue_of set_queue
queue_of-set_queue port k q l = rw lookup-assign (ground arith)

length-erase_at : (i : ℕ) (q : List Packet) → i < length q → length (erase_at i q) + 1 ≡ length q
unfolding erase_at
length-erase_at i [] h = absurd (omega arith)
length-erase_at zero (p ∷ q) h = omega arith
length-erase_at (suc i) (p ∷ q) h = omega (arith, length-erase_at i q (omega arith))

-- A full queue loses one packet, any other stays as it is.
pub length-evict :
    (place limit : ℕ) (q : List Packet)
    → length (evict place limit q)
        + (if limit == 0 then 0 else if ltb (length q) limit then 0 else 1)
      ≡ length q
unfolding evict
length-evict place limit q = ground (arith, length-erase_at (limit - 1) q, length-erase_at place q)

-- What a port needs: a waiting packet has exactly one pending check, not before the port is
-- available, and an empty queue has none.
abbrev pub PortOk : List Packet → ℕ → List ℕ → Type 0
PortOk [] available times = times ≡ []
PortOk (p ∷ q) available times = (t : ℕ) × (times ≡ t ∷ []) × (available ≤ t)

abbrev pub Bounded : ℕ → List Packet → Type 0
Bounded limit q = limit ≢ 0 → length q ≤ limit

-- A packet is always taken into the queue of its port, behind those that wait, which keep their
-- order, and one of which goes if the queue is full; the queue is within the limit, the other queues and the
-- times stay, and a check is sent exactly if the port had no packet waiting.
pub record Sends (port now : ℕ) (p : Packet) (l l' : Link) (es : List Effect) : Type 0 where
  pub others : (k : ℕ) → k ≢ port → queue_of k l' ≡ queue_of k l
  pub times : l'.next_available ≡ l.next_available
  pub speed : l'.bps ≡ l.bps
  pub limit : l'.max_queue_length ≡ l.max_queue_length
  pub behind :
      (kept : List Packet) × (queue_of port l' ≡ kept ++ p ∷ [])
      × Sub kept (queue_of port l)
      × (length kept
            + (if l.max_queue_length == 0
                then 0
                else if ltb (length (queue_of port l)) l.max_queue_length
                then 0
                else 1)
          ≡ length (queue_of port l))
  pub waits : queue_of port l' ≢ []
  pub bounded : Bounded l.max_queue_length (queue_of port l')
  pub checks : es ≡ (
      if length (queue_of port l) == 0
      then check_queue port (wait_time (available_at port l) now) ∷ []
      else [])

append-ne-nil : (q : List Packet) (p : Packet) → q ++ p ∷ [] ≢ []
append-ne-nil [] p e = cc
append-ne-nil (x ∷ q) p e = cc

pub send_packet-Sends :
    (place port now : ℕ) (p : Packet) (l : Link)
    → l.max_queue_length ≢ 1
    → Bounded l.max_queue_length (queue_of port l)
    → (l' : Link) × (es : List Effect) × (send_packet place port p now l ≡ some (l', es))
      × Sends port now p l l' es
unfolding send_packet
send_packet-Sends place port now p l not_one bounded =
    let limit : ℕ = l.max_queue_length in
    let q : List Packet = queue_of port l in
    let kept : List Packet = evict place limit q in
    let len = length-evict place limit q in
    let room : ((limit == 0) || ltb (length kept) limit) ≡ true = ground arith in
    let longer = length-append kept (p ∷ []) in
    let same : queue_of port (set_queue port (kept ++ p ∷ []) l) ≡ kept ++ p ∷ [] =
      rw queue_of-set_queue (ground arith) in
    let first : (length (kept ++ p ∷ []) == 1) ≡ (length q == 0) = ground arith in
    (
      set_queue port (kept ++ p ∷ []) l,
      (if length q == 0 then check_queue port (wait_time (available_at port l) now) ∷ [] else []),
      rw (room, first),
      record {
        others = λ k ne. rw queue_of-set_queue (ground arith);
        times = unfold set_queue in refl;
        speed = unfold set_queue in refl;
        limit = unfold set_queue in refl;
        behind = (kept, same, Sub-evict place limit q, len);
        waits = rw same (append-ne-nil kept p);
        bounded = λ some_limit. rw same (ground (arith, some_limit));
        checks = refl;
      },
    )

-- The check of a port that is available passes on the packet that waited longest, sets the time at
-- which the port is available again, and is repeated then if more packets wait.
pub record Serves (port now : ℕ) (p : Packet) (rest : List Packet) (l l' : Link) (es : List Effect)
    : Type 0 where
  pub own : queue_of port l' ≡ rest
  pub others : (k : ℕ) → k ≢ port → queue_of k l' ≡ queue_of k l
  pub next : available_at port l' ≡ now + trans_delay l.bps p
  pub other_times : (k : ℕ) → k ≢ port → available_at k l' ≡ available_at k l
  pub limit : l'.max_queue_length ≡ l.max_queue_length
  pub effects :
      es
      ≡ packet_to_port port p (trans_delay l.bps p)
        ∷ (if length rest == 0 then [] else check_queue port (trans_delay l.bps p) ∷ [])

serve_run :
    (port now : ℕ) (p : Packet) (rest : List Packet) (l : Link)
    → now + trans_delay l.bps p < 2 ^ 64
    → serve port now p rest l
      ≡ some (
        record l {
          output_queue = assign port rest l.output_queue;
          next_available = assign port (now + trans_delay l.bps p) l.next_available;
        },
        packet_to_port port p (trans_delay l.bps p)
            ∷ (if length rest == 0 then [] else check_queue port (trans_delay l.bps p) ∷ []),
      )
unfolding serve wait_time
serve_run port now p [] l fits =
    let kept : (now + trans_delay l.bps p) % 2 ^ 64 ≡ now + trans_delay l.bps p =
      mod-eq_of_lt fits in
    rw kept
serve_run port now p (x ∷ rest) l fits =
    let delay : ℕ = trans_delay l.bps p in
    let kept : (now + delay) % 2 ^ 64 ≡ now + delay = mod-eq_of_lt fits in
    let waited : (if ltb now (now + delay) then now + delay - now else 0) ≡ delay = ground arith in
    let same : (delay == delay) ≡ true = ground arith in
    let more : (length (x ∷ rest) == 0) ≡ false = ground arith in rw (kept, waited, same, more)

serve-Serves :
    (port now : ℕ) (p : Packet) (rest : List Packet) (l : Link)
    → now + trans_delay l.bps p < 2 ^ 64
    → (l' : Link) × (es : List Effect) × (serve port now p rest l ≡ some (l', es))
      × Serves port now p rest l l' es
serve-Serves port now p rest l fits = (
  record l {
    output_queue = assign port rest l.output_queue;
    next_available = assign port (now + trans_delay l.bps p) l.next_available;
  },
  _,
  serve_run port now p rest l fits,
  record {
    own = unfold queue_of in rw lookup-assign (ground arith);
    others = λ k ne. unfold queue_of in rw lookup-assign (ground arith);
    next = unfold available_at in rw lookup-assign (ground arith);
    other_times = λ k ne. unfold available_at in rw lookup-assign (ground arith);
    limit = refl;
    effects = refl;
  },
)

pub on_check_queue-Serves :
    (port now : ℕ) (p : Packet) (rest : List Packet) (l : Link)
    → queue_of port l ≡ p ∷ rest
    → available_at port l ≤ now
    → now + trans_delay l.bps p < 2 ^ 64
    → (l' : Link) × (es : List Effect) × (on_check_queue port now l ≡ some (l', es))
      × Serves port now p rest l l' es
unfolding on_check_queue
on_check_queue-Serves port now p rest l q due fits =
    let (l', es, run, serves) = serve-Serves port now p rest l fits in
    let open_port : leb (available_at port l) now ≡ true = ground arith in
    (l', es, rw (q, on_check_queue, open_port) run, serves)

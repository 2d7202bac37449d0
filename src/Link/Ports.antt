-- ===== src/Link/Ports.antt =====
-- The pending checks of one port: how the checks that a handler sends add to them, and one that fires
-- is taken from them.
use kensv.Prelude.{
  ℕ, ◌+◌, ◌-◌, ◌%◌, ◌^◌, ◌≤◌, ◌<◌, ◌≡◌, ◌≢◌, refl, ap, ◌∙◌, sym, Bool, true, false, List, [], ◌∷◌,
  ◌++◌, length, ltb, ◌==◌, if◌then◌else◌, arith,
}
use kensv.Packet.{Packet}
use kensv.Link.{Effect, packet_to_port, check_queue, wait_time}
use kensv.Link.Queues.{PortOk}

-- The checks among the effects of a handler that runs at `now`, by their time of delivery.
unfoldable pub checks : ℕ → List Effect → List (ℕ × ℕ)
checks now [] = []
checks now (packet_to_port k p d ∷ es) = checks now es
checks now (check_queue k d ∷ es) = (k, (now + d) % 2 ^ 64) ∷ checks now es

unfoldable pub times_of : ℕ → List (ℕ × ℕ) → List ℕ
times_of port [] = []
times_of port ((k, t) ∷ ps) = let rest = times_of port ps in if k == port then t ∷ rest else rest

pub times_of-append :
    (port : ℕ) (ps qs : List (ℕ × ℕ))
    → times_of port (ps ++ qs) ≡ times_of port ps ++ times_of port qs
unfolding times_of
times_of-append port [] qs = refl
times_of-append port ((k, t) ∷ ps) qs = ground (arith, times_of-append port ps qs)

PortOk-intro :
    (q : List Packet) (available t : ℕ) (times : List ℕ)
    → q ≢ []
    → times ≡ t ∷ []
    → available ≤ t
    → PortOk q available times
PortOk-intro [] available t times ne e le = absurd (ne refl)
PortOk-intro (p ∷ q) available t times ne e le = (t, e, le)

pub times_of-checks_self :
    (b : Bool) (port now d : ℕ)
    → times_of port (checks now (if b then check_queue port d ∷ [] else []))
      ≡ (if b then ((now + d) % 2 ^ 64) ∷ [] else [])
unfolding times_of checks
times_of-checks_self true port now d = ground arith
times_of-checks_self false port now d = refl

pub times_of-checks_other :
    (b : Bool) (k port now d : ℕ)
    → k ≢ port
    → times_of k (checks now (if b then check_queue port d ∷ [] else [])) ≡ []
unfolding times_of checks
times_of-checks_other true k port now d ne = ground arith
times_of-checks_other false k port now d ne = refl

pub times_of-served :
    (b : Bool) (port now d : ℕ) (p : Packet)
    → times_of port
        (checks now (packet_to_port port p d ∷ (if b then [] else check_queue port d ∷ [])))
      ≡ (if b then [] else ((now + d) % 2 ^ 64) ∷ [])
unfolding times_of checks
times_of-served true port now d p = refl
times_of-served false port now d p = ground arith

pub times_of-served_other :
    (b : Bool) (k port now d : ℕ) (p : Packet)
    → k ≢ port
    → times_of k
        (checks now (packet_to_port port p d ∷ (if b then [] else check_queue port d ∷ [])))
      ≡ []
unfolding times_of checks
times_of-served_other true k port now d p ne = refl
times_of-served_other false k port now d p ne = ground arith

-- A port through which a packet was sent.
pub sent_port :
    (old new : List Packet) (available now : ℕ) (times : List ℕ)
    → new ≢ []
    → available < 2 ^ 64
    → now < 2 ^ 64
    → PortOk old available times
    → PortOk new available
        (times ++ (if length old == 0 then ((now + wait_time available now) % 2 ^ 64) ∷ [] else []))
unfolding wait_time
sent_port [] new available now times ne ha hn ok =
    PortOk-intro new available ((now + (if ltb now available then available - now else 0)) % 2 ^ 64)
      _ ne
      (ap (λ ts. ts ++ ((now + (if ltb now available then available - now else 0)) % 2 ^ 64) ∷ [])
        ok)
      (ground arith)
sent_port (p ∷ old) new available now times ne ha hn (t, one, le) =
    PortOk-intro new available t _ ne (ground (arith, one)) le

split_one : (xs ys : List ℕ) (y t : ℕ) → xs ++ y ∷ ys ≡ t ∷ [] → (xs ++ ys ≡ []) × (y ≡ t)
split_one [] ys y t e = ground arith
split_one (x ∷ []) ys y t e = cc
split_one (x ∷ x' ∷ xs) ys y t e = cc

split_none : (xs ys : List ℕ) (y : ℕ) → xs ++ y ∷ ys ≢ []
split_none [] ys y e = cc
split_none (x ∷ xs) ys y e = cc

times_of-middle :
    (port now : ℕ) (before after : List (ℕ × ℕ))
    → times_of port (before ++ (port, now) ∷ after)
      ≡ times_of port before ++ now ∷ times_of port after
unfolding times_of
times_of-middle port now before after =
    times_of-append port before ((port, now) ∷ after)
    ∙ ap (λ ts. times_of port before ++ ts) (ground arith)

pub times_of-skip :
    (k port now : ℕ) (before after : List (ℕ × ℕ))
    → k ≢ port
    → times_of k (before ++ (port, now) ∷ after) ≡ times_of k (before ++ after)
unfolding times_of
times_of-skip k port now before after ne =
    times_of-append k before ((port, now) ∷ after)
    ∙ ap (λ ts. times_of k before ++ ts) (ground arith)
    ∙ sym (times_of-append k before after)

-- The port whose check has arrived has no other check, and a packet to pass on.
pub fired_port :
    (before after : List (ℕ × ℕ)) (port now available : ℕ) (q : List Packet)
    → PortOk q available (times_of port (before ++ (port, now) ∷ after))
    → (p : Packet) × (rest : List Packet) × (q ≡ p ∷ rest)
      × (available ≤ now)
      × (times_of port (before ++ after) ≡ [])
fired_port before after port now available [] ok =
    absurd (split_none _ _ now (sym (times_of-middle port now before after) ∙ ok))
fired_port before after port now available (p ∷ rest) (t, one, le) =
    let (none_left, at) =
      split_one (times_of port before) (times_of port after) now t
        (sym (times_of-middle port now before after) ∙ one) in
    (p, rest, refl, omega arith, times_of-append port before after ∙ none_left)

-- A port that has just been served.
pub served_port :
    (rest : List Packet) (now delay : ℕ)
    → now + delay < 2 ^ 64
    → PortOk rest (now + delay) (if length rest == 0 then [] else ((now + delay) % 2 ^ 64) ∷ [])
served_port [] now delay fits = refl
served_port (p ∷ rest) now delay fits = (now + delay, ground arith, omega arith)

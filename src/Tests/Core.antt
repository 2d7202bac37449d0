-- ===== src/Tests/Core.antt =====
-- A module that passes a counter on to itself until it is 0.
use kensv.Prelude.{
  ◌≡◌, ◌≤◌, ◌==◌, true, inl, inr, Bool-cases, ℕ, zero, suc, ◌+◌, ◌<◌, refl, false, none, Option, [],
  ◌∷◌, All, arith,
}
use kensv.Prelude.Table.{lookup}
use kensv.Prelude.NumSet.{member}
use kensv.System.{System, Modules, Prog, done, send, stopped, run, ok}
use kensv.System.Ensures.{Ensures, Delays}
use kensv.System.Rules.{ModuleDelays}
use kensv.System.Invariant.{Inv, run-Inv}
use kensv.Prelude.Tally.{tally}
use kensv.System.Budget.{Funded, Pays, KnownEnds}
use kensv.System.Hands.{idle}
use kensv.System.Deliveries.{Pay}
use kensv.System.Returns.{run_returns}
use kensv.System.Time.{OnTime, Fits, run-OnTime}

pass_on : ℕ → ℕ → ℕ → Prog ℕ (ℕ × ℕ × Option ℕ)
pass_on to zero w = done (w + 1, 0, none)
pass_on to (suc n) w = send to to n 5 (λ _. done (w + 1, suc n, none))

relay : Modules ℕ ℕ
relay = record {
  empty_message = 0;
  message_received = λ to from m w. pass_on to m w;
  message_finished = λ id to m r w. done w;
  message_cancelled = λ id to m w. done w;
  wake = λ r w. done (w, stopped);
}

pass_on-Delays : (to m w : ℕ) → Delays (Fits 12) (pass_on to m w)
unfolding pass_on
pass_on-Delays to zero w = tt
pass_on-Delays to (suc n) w = (omega arith, λ u. tt)

relay-Delays : ModuleDelays relay (Fits 12)
unfolding relay
relay-Delays = record {
  received = λ to from m w. pass_on-Delays to m w;
  finished = λ id to m r w. tt;
  cancelled = λ id to m w. tt;
  woken = λ r w. tt;
}

abbrev queued : System ℕ
queued = record {
  current_time = 0;
  current_uuid = 1;
  timer_queue = record { wakeup = 7; uuid = 1 } ∷ [];
  active_timer =
      (1, record { from = 1; to = 1; canceled = false; wakeup = 7; message = 3; uuid = 1 }) ∷ [];
  active_uuid = 1 ∷ [];
  registered_module = 1 ∷ [];
  runnable_ready = [];
}

queued-Inv : Inv queued
unfolding lookup member
queued-Inv = record { sorted = (tt, tt); live = ((refl, refl), tt); tied = λ id. ground arith }

run-Inv_example : Ensures (λ r. Inv r.0) (run relay 20 12 queued 0)
run-Inv_example = run-Inv relay 20 12 queued 0 queued-Inv

run-OnTime_example :
    Ensures
      (λ r. OnTime 0 12 r.0 × All (λ e. 12 < e.wakeup) r.0.timer_queue)
      (run relay 20 12 queued 0)
run-OnTime_example =
    run-OnTime relay 0 12 relay-Delays 20 queued 0 (omega arith) queued-Inv
      (record { begun = omega arith; within = omega arith; due = (omega arith, tt) })

abbrev weight : ℕ → ℕ
weight m = m

abbrev nothing : ℕ → ℕ
nothing w = 0

pass_on-Pays :
    (to m w : ℕ)
    → member to (1 ∷ []) ≡ true
    → Pays (1 ∷ []) weight (λ b r. nothing r.0 ≤ b) (nothing w + weight m) (pass_on to m w)
unfolding pass_on
pass_on-Pays to zero w known = omega arith
pass_on-Pays to (suc n) w known = (omega arith, known, known, λ u. omega arith)

relay-Pay : Pay relay (1 ∷ []) weight nothing
unfolding relay
relay-Pay = record {
  received = λ to from m w known sender. pass_on-Pays to m w known;
  finished = λ id to m r w known other. omega arith;
  cancelled = λ id to m w known other. omega arith;
  woken = λ r w. (refl, omega arith);
}

queued-Funded : Funded (1 ∷ []) weight idle 4 4 0 queued
unfolding lookup member tally
queued-Funded = record {
  inv = queued-Inv;
  modules_are = refl;
  ends = queued_ends;
  fresh = λ id used. ground arith;
  holding = tt;
  steps = omega arith;
  uuids = omega arith;
}
  where
    queued_ends : (id : ℕ) → KnownEnds (1 ∷ []) weight (lookup id queued.active_timer)
    queued_ends id = elim (Bool-cases (1 == id)) [
      | inl it ↦ rw it (refl, refl)
      | inr other ↦ rw other tt
    ]

run_returns_example :
    (x : System ℕ × ℕ) × (run relay 20 12 queued 0 ≡ ok x)
    × (0 ≤ x.0.current_time)
    × (x.0.current_time ≤ 12)
    × All (λ e. 12 < e.wakeup) x.0.timer_queue
run_returns_example =
    run_returns relay (1 ∷ []) weight nothing 0 12 4 4 20 queued 0 relay-Pay relay-Delays
      (omega arith) (omega arith) (omega arith) queued-Funded
      (record { begun = omega arith; within = omega arith; due = (omega arith, tt) })

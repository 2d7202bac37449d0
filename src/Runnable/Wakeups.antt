-- ===== src/Runnable/Wakeups.antt =====
-- No wake-up is lost, and what the destructor waits for.
use kensv.Prelude.{ℕ, ◌+◌, ◌≤◌, ◌<◌, Bool, true, false, ◌≡◌, ◌≢◌, refl, inl, inr, ◌⊎◌, arith}
use kensv.Runnable.{
  terminated, in_main, Thread, unborn, in_pre_main, ended, tests, asleep, at_start, at_run, at_wait,
  Scheduler, outside, checks, sleeps, Runnable, Outcome, moved, blocked, failed, thread_step,
  scheduler_step, goes_on, after, notify_scheduler, comes_back, destroy,
}
use kensv.Runnable.Turns.{
  run_rests, wait_rests, Shape, fresh, starts, waits_start, begins, prepares, prepared, started,
  start_ends, rests, wakes, waits_turn, takes_turn, works, gives_back, given_back, wait_ends, waits,
  done, done_ends, over,
}
use kensv.Runnable.Runs.{
  Run, Run-Shape, Outside, not_started, can_wake, can_ready, is_over, Shape-Outside,
}

-- How many moves the thread and the scheduler are away from the return of the call, or from `main`.
abbrev thread_moves : Thread → ℕ
thread_moves unborn = 6
thread_moves in_pre_main = 4
thread_moves in_main = 0
thread_moves ended = 0
thread_moves (tests at_start) = 5
thread_moves (tests at_run) = 1
thread_moves (tests at_wait) = 1
thread_moves (asleep p true) = 2
thread_moves (asleep p false) = 0

abbrev scheduler_moves : Scheduler → ℕ
scheduler_moves outside = 0
scheduler_moves (checks c) = 2
scheduler_moves (sleeps c false) = 1
scheduler_moves (sleeps c true) = 3

abbrev pub distance : Runnable → ℕ
distance r = thread_moves r.thread + scheduler_moves r.scheduler

-- A move that comes nearer.
abbrev pub Nearer : Runnable → Outcome → Type 0
Nearer r (moved r') = distance r' < distance r
Nearer r blocked = ⊥
Nearer r failed = ⊥

-- No move, or one that comes nearer.
abbrev pub NotAway : Runnable → Outcome → Type 0
NotAway r (moved r') = distance r' < distance r
NotAway r blocked = Unit
NotAway r failed = ⊥

-- One of the two can move, nearer, and the other does not move away.
abbrev pub Advances : Runnable → Outcome → Outcome → Type 0
Advances r t s = (Nearer r t × NotAway r s) ⊎ (NotAway r t × Nearer r s)

Shape-Advances :
    (ends : Bool) {r : Runnable}
    → Shape r
    → r.scheduler ≢ outside
    → r.thread ≢ in_main
    → (distance r ≤ 8) × Advances r (thread_step ends false r) (scheduler_step false r)
unfolding thread_step scheduler_step goes_on after notify_scheduler comes_back
Shape-Advances ends fresh busy away = absurd (busy refl)
Shape-Advances ends starts busy away = (omega arith, inr (tt, omega arith))
Shape-Advances ends waits_start busy away = (omega arith, inl (omega arith, tt))
Shape-Advances ends begins busy away = (omega arith, inl (omega arith, tt))
Shape-Advances ends prepares busy away = (omega arith, inl (omega arith, tt))
Shape-Advances ends prepared busy away = (omega arith, inl (omega arith, tt))
Shape-Advances ends started busy away = (omega arith, inr (tt, omega arith))
Shape-Advances ends start_ends busy away = (omega arith, inr (tt, omega arith))
Shape-Advances ends (rests p) busy away = absurd (busy refl)
Shape-Advances ends (wakes p) busy away = (omega arith, inr (tt, omega arith))
Shape-Advances ends (waits_turn run_rests) busy away = (omega arith, inl (omega arith, tt))
Shape-Advances ends (waits_turn wait_rests) busy away = (omega arith, inl (omega arith, tt))
Shape-Advances ends (takes_turn run_rests) busy away = (omega arith, inl (omega arith, tt))
Shape-Advances ends (takes_turn wait_rests) busy away = (omega arith, inl (omega arith, tt))
Shape-Advances ends works busy away = absurd (away refl)
Shape-Advances ends gives_back busy away = (omega arith, inl (omega arith, tt))
Shape-Advances ends given_back busy away = (omega arith, inr (tt, omega arith))
Shape-Advances ends wait_ends busy away = (omega arith, inr (tt, omega arith))
Shape-Advances ends waits busy away = absurd (busy refl)
Shape-Advances ends done busy away = (omega arith, inr (tt, omega arith))
Shape-Advances ends done_ends busy away = (omega arith, inr (tt, omega arith))
Shape-Advances ends over busy away = absurd (busy refl)

-- In every run, while the scheduler is in `start` or `wake` and the thread is not in `main`: without a
-- spurious wake-up, one of the two can move, and each move that either can make brings them nearer to
-- the return of the call, or to `main`, which is at most 8 moves away. So no notification is lost.
pub no_wakeup_lost :
    (ends : Bool) (r : Runnable)
    → Run r
    → r.scheduler ≢ outside
    → r.thread ≢ in_main
    → (distance r ≤ 8) × Advances r (thread_step ends false r) (scheduler_step false r)
no_wakeup_lost ends r run busy away = Shape-Advances ends (Run-Shape run) busy away

Outside-destroy :
    (ends spurious : Bool) {r : Runnable}
    → Outside r
    → ((r.state ≡ terminated) × (destroy r ≡ moved r))
      ⊎ ((r.state ≢ terminated) × (destroy r ≡ blocked) × (thread_step ends spurious r ≡ blocked))
unfolding destroy thread_step
Outside-destroy ends spurious not_started = inr ((λ e. cc), refl, refl)
Outside-destroy ends spurious (can_wake p) = inr ((λ e. cc), refl, refl)
Outside-destroy ends spurious can_ready = inr ((λ e. cc), refl, refl)
Outside-destroy ends spurious is_over = inl (refl, refl)

-- In every run, outside of its calls, the destructor ends at once if the runnable is TERMINATED.
-- Otherwise it waits for the thread, which cannot move, because the destructor holds the lock: both
-- wait for ever.
pub destroy_waits :
    (ends spurious : Bool) (r : Runnable)
    → Run r
    → r.scheduler ≡ outside
    → ((r.state ≡ terminated) × (destroy r ≡ moved r))
      ⊎ ((r.state ≢ terminated) × (destroy r ≡ blocked) × (thread_step ends spurious r ≡ blocked))
destroy_waits ends spurious r run free =
    Outside-destroy ends spurious (Shape-Outside (Run-Shape run) free)

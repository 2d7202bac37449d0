-- ===== src/Tests/Threads.antt =====
-- The start of a runnable, step by step.
use kensv.Prelude.{◌≤◌, true, false, ◌≡◌, ◌≢◌, refl, ◌⊎◌}
use kensv.Runnable.{
  starting, ready, terminated, nobody, by_thread, by_scheduler, at_run, in_pre_main, asleep,
  in_start, outside, checks, sleeps, Runnable, moved, blocked, failed, thread_step, start,
  scheduler_step, goes_on, after, notify_thread, notify_scheduler, comes_back, destroy,
}
use kensv.Runnable.Turns.{at}
use kensv.Runnable.Runs.{
  Run, constructed, thread_goes, scheduler_goes, is_started, Apart, takes_turns, Ends, call_returns,
}
use kensv.Runnable.Wakeups.{distance, Advances, no_wakeup_lost, destroy_waits}

abbrev preparing : Runnable
preparing = at starting by_thread in_pre_main (sleeps in_start false)

abbrev prepared : Runnable
prepared = at ready nobody (asleep at_run false) (sleeps in_start true)

abbrev returning : Runnable
returning = at ready by_scheduler (asleep at_run false) (checks in_start)

abbrev resting : Runnable
resting = at ready by_scheduler (asleep at_run false) outside

preparing-Run : Run preparing
unfolding thread_step start scheduler_step goes_on after notify_thread notify_scheduler comes_back
preparing-Run =
    thread_goes false false
      (thread_goes false false (scheduler_goes false (is_started constructed refl refl) refl) refl)
      refl

prepared-Run : Run prepared
unfolding thread_step goes_on notify_scheduler
prepared-Run = thread_goes false false (thread_goes false false preparing-Run refl) refl

returning-Run : Run returning
unfolding scheduler_step
returning-Run = scheduler_goes false prepared-Run refl

resting-Run : Run resting
unfolding scheduler_step comes_back
resting-Run = scheduler_goes false returning-Run refl

takes_turns_example : Apart preparing × (thread_step false false preparing ≢ failed)
takes_turns_example = takes_turns false false preparing preparing-Run

call_returns_example : Ends in_start (resting.state)
unfolding scheduler_step comes_back
call_returns_example = call_returns false in_start returning resting returning-Run refl refl refl

no_wakeup_lost_example :
    (distance prepared ≤ 8)
    × Advances prepared (thread_step false false prepared) (scheduler_step false prepared)
no_wakeup_lost_example = no_wakeup_lost false prepared prepared-Run (λ e. cc) (λ e. cc)

destroy_waits_example :
    ((resting.state ≡ terminated) × (destroy resting ≡ moved resting))
    ⊎ ((resting.state ≢ terminated)
        × (destroy resting ≡ blocked)
        × (thread_step false true resting ≡ blocked))
destroy_waits_example = destroy_waits false true resting resting-Run refl

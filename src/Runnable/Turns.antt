-- ===== src/Runnable/Turns.antt =====
-- The configurations that a runnable reaches.
use kensv.Prelude.{Bool, true, false}
use kensv.Runnable.{
  State, starting, ready, running, waiting, terminated, Owner, nobody, by_thread, by_scheduler,
  Point, at_start, at_run, at_wait, Thread, unborn, in_pre_main, in_main, ended, tests, asleep,
  in_start, in_wake, Scheduler, outside, checks, sleeps, Runnable, Outcome, moved, blocked, failed,
  new, thread_step, scheduler_step, goes_on, after, notify_scheduler, comes_back,
}

abbrev pub at : State → Owner → Thread → Scheduler → Runnable
at s o t c = record { state = s; owner = o; thread = t; scheduler = c }

-- The two points at which the thread waits for RUNNING.
pub data Rests : Point → Type 0 where
  run_rests : Rests at_run
  wait_rests : Rests at_wait

-- The configurations, in the order in which a start and a turn go through them.
pub data Shape : Runnable → Type 0 where
  fresh : Shape new
  starts : Shape (at starting by_scheduler unborn (checks in_start))
  waits_start : Shape (at starting nobody unborn (sleeps in_start false))
  begins : Shape (at starting by_thread (tests at_start) (sleeps in_start false))
  prepares : Shape (at starting by_thread in_pre_main (sleeps in_start false))
  prepared : Shape (at ready by_thread (tests at_run) (sleeps in_start true))
  started : Shape (at ready nobody (asleep at_run false) (sleeps in_start true))
  start_ends : Shape (at ready by_scheduler (asleep at_run false) (checks in_start))
  rests : {p : Point} → Rests p → Shape (at ready by_scheduler (asleep p false) outside)
  wakes : {p : Point} → Rests p → Shape (at running by_scheduler (asleep p true) (checks in_wake))
  waits_turn :
      {p : Point} → Rests p → Shape (at running nobody (asleep p true) (sleeps in_wake false))
  takes_turn : {p : Point} → Rests p → Shape (at running by_thread (tests p) (sleeps in_wake false))
  works : Shape (at running by_thread in_main (sleeps in_wake false))
  gives_back : Shape (at waiting by_thread (tests at_wait) (sleeps in_wake true))
  given_back : Shape (at waiting nobody (asleep at_wait false) (sleeps in_wake true))
  wait_ends : Shape (at waiting by_scheduler (asleep at_wait false) (checks in_wake))
  waits : Shape (at waiting by_scheduler (asleep at_wait false) outside)
  done : Shape (at terminated nobody ended (sleeps in_wake true))
  done_ends : Shape (at terminated by_scheduler ended (checks in_wake))
  over : Shape (at terminated by_scheduler ended outside)

abbrev pub Good : Outcome → Type 0
Good (moved r) = Shape r
Good blocked = Unit
Good failed = ⊥

-- A call of the scheduler, which may be made in the wrong state.
abbrev pub Sound : Outcome → Type 0
Sound (moved r) = Shape r
Sound blocked = ⊥
Sound failed = Unit

pub thread_step-Good :
    (ends spurious : Bool) {r : Runnable} → Shape r → Good (thread_step ends spurious r)
unfolding thread_step goes_on after notify_scheduler
thread_step-Good ends spurious fresh = tt
thread_step-Good ends spurious starts = tt
thread_step-Good ends spurious waits_start = begins
thread_step-Good ends spurious begins = prepares
thread_step-Good ends spurious prepares = prepared
thread_step-Good ends spurious prepared = started
thread_step-Good ends false started = tt
thread_step-Good ends true started = prepared
thread_step-Good ends spurious start_ends = tt
thread_step-Good ends spurious (rests p) = tt
thread_step-Good ends spurious (wakes p) = tt
thread_step-Good ends spurious (waits_turn p) = takes_turn p
thread_step-Good ends spurious (takes_turn run_rests) = works
thread_step-Good ends spurious (takes_turn wait_rests) = works
thread_step-Good false spurious works = gives_back
thread_step-Good true spurious works = done
thread_step-Good ends spurious gives_back = given_back
thread_step-Good ends false given_back = tt
thread_step-Good ends true given_back = gives_back
thread_step-Good ends spurious wait_ends = tt
thread_step-Good ends spurious waits = tt
thread_step-Good ends spurious done = tt
thread_step-Good ends spurious done_ends = tt
thread_step-Good ends spurious over = tt

pub scheduler_step-Good :
    (spurious : Bool) {r : Runnable} → Shape r → Good (scheduler_step spurious r)
unfolding scheduler_step comes_back
scheduler_step-Good spurious fresh = tt
scheduler_step-Good spurious starts = waits_start
scheduler_step-Good false waits_start = tt
scheduler_step-Good true waits_start = starts
scheduler_step-Good spurious begins = tt
scheduler_step-Good spurious prepares = tt
scheduler_step-Good spurious prepared = tt
scheduler_step-Good spurious started = start_ends
scheduler_step-Good spurious start_ends = rests run_rests
scheduler_step-Good spurious (rests p) = tt
scheduler_step-Good spurious (wakes p) = waits_turn p
scheduler_step-Good false (waits_turn p) = tt
scheduler_step-Good true (waits_turn p) = wakes p
scheduler_step-Good spurious (takes_turn p) = tt
scheduler_step-Good spurious works = tt
scheduler_step-Good spurious gives_back = tt
scheduler_step-Good spurious given_back = wait_ends
scheduler_step-Good spurious wait_ends = waits
scheduler_step-Good spurious waits = tt
scheduler_step-Good spurious done = done_ends
scheduler_step-Good spurious done_ends = over
scheduler_step-Good spurious over = tt

-- ===== src/Runnable.antt =====
-- Runnable in include/E/E_System.hpp and src/E/E_System.cpp: a thread of its own, which a lock and a
-- condition variable make run in turns with the scheduler. A step goes from one operation on the
-- lock to the next. A notification wakes every sleeper; a sleeper may also wake without one
-- (`spurious`).
pub mod Turns
pub mod Runs
pub mod Wakeups
use kensv.Prelude.{Bool, true, false, ◌||◌, if◌then◌else◌}

-- `Runnable::State`.
pub data State : Type 0 where
  created starting ready running waiting terminated : State

-- Who holds `stateMtx`.
pub data Owner : Type 0 where
  nobody by_thread by_scheduler : Owner

-- The `cond.wait` of the thread: for STARTING, for RUNNING in `run`, and for RUNNING in `wait`.
pub data Point : Type 0 where
  at_start at_run at_wait : Point

-- Where the thread is: before its first lock, about to test what it waits for, asleep, with the lock
-- released and notified or not, in `pre_main` or in `main`, or at its end.
pub data Thread : Type 0 where
  unborn in_pre_main in_main ended : Thread
  tests : Point → Thread
  asleep : Point → (notified : Bool) → Thread

-- The calls in which the scheduler waits.
pub data Call : Type 0 where
  in_start in_wake : Call

-- Where the scheduler is: outside of the calls, or in one of them.
pub data Scheduler : Type 0 where
  outside : Scheduler
  checks : Call → Scheduler
  sleeps : Call → (notified : Bool) → Scheduler

pub record Runnable : Type 0 where
  pub state : State
  pub owner : Owner
  pub thread : Thread
  pub scheduler : Scheduler

pub data Outcome : Type 0 where
  moved : Runnable → Outcome
  blocked : Outcome
  failed : Outcome

-- `Runnable::Runnable`: the scheduler holds the lock.
abbrev pub new : Runnable
new = record { state = created; owner = by_scheduler; thread = unborn; scheduler = outside }

-- `cond.notify_all` by the scheduler and by the thread.
unfoldable pub notify_thread : Thread → Thread
notify_thread (asleep p notified) = asleep p true
notify_thread unborn = unborn
notify_thread in_pre_main = in_pre_main
notify_thread in_main = in_main
notify_thread ended = ended
notify_thread (tests p) = tests p

unfoldable pub notify_scheduler : Scheduler → Scheduler
notify_scheduler (sleeps c notified) = sleeps c true
notify_scheduler outside = outside
notify_scheduler (checks c) = checks c

abbrev pub is_starting : State → Bool
is_starting s = elim s [ starting ↦ true | _ ↦ false ]

abbrev pub is_ready : State → Bool
is_ready s = elim s [ ready ↦ true | _ ↦ false ]

abbrev pub is_running : State → Bool
is_running s = elim s [ running ↦ true | _ ↦ false ]

-- What the thread waits for at a point, and where it goes on.
unfoldable pub goes_on : Point → State → Bool
goes_on at_start s = is_starting s
goes_on at_run s = is_running s
goes_on at_wait s = is_running s

unfoldable pub after : Point → Thread
after at_start = in_pre_main
after at_run = in_main
after at_wait = in_main

-- What the scheduler waits for in a call.
unfoldable pub comes_back : Call → State → Bool
comes_back in_start s = is_ready s
comes_back in_wake s = if is_running s then false else true

-- A step of the thread, in `Runnable::run` and `Runnable::wait`; `ends` tells whether `main` returns
-- or calls `wait`.
unfoldable pub thread_step : (ends spurious : Bool) → Runnable → Outcome
unfolding notify_scheduler goes_on after
thread_step ends spurious r = elim r.thread [
  | unborn ↦ elim r.owner [
    | nobody ↦ moved (record r { owner = by_thread; thread = tests at_start })
    | _ ↦ blocked
  ]
  | tests p ↦
      if goes_on p r.state
      then moved (record r { thread = after p })
      else moved (record r { owner = nobody; thread = asleep p false })
  | asleep p notified ↦ elim r.owner [
    | nobody ↦
        if notified || spurious
        then moved (record r { owner = by_thread; thread = tests p })
        else blocked
    | _ ↦ blocked
  ]
  | in_pre_main ↦
      moved (record r {
        state = ready;
        thread = tests at_run;
        scheduler = notify_scheduler r.scheduler;
      })
  | in_main ↦
      if ends
      then moved (record r {
        state = terminated;
        owner = nobody;
        thread = ended;
        scheduler = notify_scheduler r.scheduler;
      })
      else elim r.owner [
        | by_thread ↦
            if is_running r.state
            then moved (record r {
              state = waiting;
              thread = tests at_wait;
              scheduler = notify_scheduler r.scheduler;
            })
            else failed
        | _ ↦ failed
      ]
  | ended ↦ blocked
]

-- `Runnable::start`, `Runnable::wake` and `Runnable::ready` up to their `cond.wait`; each asserts that
-- the scheduler holds the lock, and its state.
unfoldable pub start : Runnable → Outcome
unfolding notify_thread
start r = elim r.owner [
  | by_scheduler ↦ elim r.state [
    | created ↦ moved (record r {
      state = starting;
      thread = notify_thread r.thread;
      scheduler = checks in_start;
    })
    | _ ↦ failed
  ]
  | _ ↦ failed
]

unfoldable pub wake : Runnable → Outcome
unfolding notify_thread
wake r = elim r.owner [
  | by_scheduler ↦ elim r.state [
    | ready ↦
        moved (record r {
          state = running;
          thread = notify_thread r.thread;
          scheduler = checks in_wake;
        })
    | _ ↦ failed
  ]
  | _ ↦ failed
]

unfoldable pub make_ready : Runnable → Outcome
make_ready r = elim r.owner [
  | by_scheduler ↦ elim r.state [ waiting ↦ moved (record r { state = ready }) | _ ↦ failed ]
  | _ ↦ failed
]

-- The `cond.wait` of `start` and `wake`.
unfoldable pub scheduler_step : (spurious : Bool) → Runnable → Outcome
unfolding comes_back
scheduler_step spurious r = elim r.scheduler [
  | outside ↦ blocked
  | checks c ↦
      if comes_back c r.state
      then moved (record r { scheduler = outside })
      else moved (record r { owner = nobody; scheduler = sleeps c false })
  | sleeps c notified ↦ elim r.owner [
    | nobody ↦
        if notified || spurious
        then moved (record r { owner = by_scheduler; scheduler = checks c })
        else blocked
    | _ ↦ blocked
  ]
]

-- `Runnable::~Runnable`: it joins the thread, with the lock held.
unfoldable pub destroy : Runnable → Outcome
destroy r = elim r.owner [
  | by_scheduler ↦ elim r.thread [ ended ↦ moved r | _ ↦ blocked ]
  | _ ↦ failed
]

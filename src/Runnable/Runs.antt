-- ===== src/Runnable/Runs.antt =====
-- What holds in every run of a runnable.
use kensv.Prelude.{Bool, false, ◌≡◌, ◌≢◌, refl, subst, inl, inr, ◌⊎◌}
use kensv.Runnable.{
  State, ready, running, waiting, terminated, by_thread, by_scheduler, Point, at_wait, in_pre_main,
  in_main, ended, asleep, Call, in_start, in_wake, Scheduler, outside, checks, sleeps, Runnable,
  Outcome, moved, blocked, failed, new, thread_step, start, wake, make_ready, scheduler_step,
  notify_thread, comes_back,
}
use kensv.Runnable.Turns.{
  Rests, wait_rests, Shape, fresh, starts, waits_start, begins, prepares, prepared, started,
  start_ends, rests, wakes, waits_turn, takes_turn, works, gives_back, given_back, wait_ends, waits,
  done, done_ends, over, Good, Sound, thread_step-Good, scheduler_step-Good,
}

-- A run: steps of both threads in any order, spurious wake-ups included, and calls of the scheduler
-- while it is in no other call.
pub data Run : Runnable → Type 0 where
  constructed : Run new
  thread_goes :
      (ends spurious : Bool) {r r' : Runnable}
      → Run r
      → thread_step ends spurious r ≡ moved r'
      → Run r'
  scheduler_goes :
      (spurious : Bool) {r r' : Runnable} → Run r → scheduler_step spurious r ≡ moved r' → Run r'
  is_started : {r r' : Runnable} → Run r → r.scheduler ≡ outside → start r ≡ moved r' → Run r'
  is_woken : {r r' : Runnable} → Run r → r.scheduler ≡ outside → wake r ≡ moved r' → Run r'
  is_readied : {r r' : Runnable} → Run r → r.scheduler ≡ outside → make_ready r ≡ moved r' → Run r'

abbrev pub InCall : Scheduler → Type 0
InCall outside = ⊥
InCall (checks c) = Unit
InCall (sleeps c n) = Unit

-- The configurations outside of the calls.
pub data Outside : Runnable → Type 0 where
  not_started : Outside new
  can_wake :
      {p : Point}
      → Rests p
      → Outside (record {
        state = ready;
        owner = by_scheduler;
        thread = asleep p false;
        scheduler = outside;
      })
  can_ready : Outside (record {
    state = waiting;
    owner = by_scheduler;
    thread = asleep at_wait false;
    scheduler = outside;
  })
  is_over :
      Outside
        (record { state = terminated; owner = by_scheduler; thread = ended; scheduler = outside })

pub no_call : {c : Scheduler} → c ≡ outside → InCall c → ⊥
no_call {c} e h = subst InCall e h

pub Shape-Outside : {r : Runnable} → Shape r → r.scheduler ≡ outside → Outside r
Shape-Outside fresh e = not_started
Shape-Outside starts e = absurd (no_call e tt)
Shape-Outside waits_start e = absurd (no_call e tt)
Shape-Outside begins e = absurd (no_call e tt)
Shape-Outside prepares e = absurd (no_call e tt)
Shape-Outside prepared e = absurd (no_call e tt)
Shape-Outside started e = absurd (no_call e tt)
Shape-Outside start_ends e = absurd (no_call e tt)
Shape-Outside (rests p) e = can_wake p
Shape-Outside (wakes p) e = absurd (no_call e tt)
Shape-Outside (waits_turn p) e = absurd (no_call e tt)
Shape-Outside (takes_turn p) e = absurd (no_call e tt)
Shape-Outside works e = absurd (no_call e tt)
Shape-Outside gives_back e = absurd (no_call e tt)
Shape-Outside given_back e = absurd (no_call e tt)
Shape-Outside wait_ends e = absurd (no_call e tt)
Shape-Outside waits e = can_ready
Shape-Outside done e = absurd (no_call e tt)
Shape-Outside done_ends e = absurd (no_call e tt)
Shape-Outside over e = is_over

start-Sound : {r : Runnable} → Outside r → Sound (start r)
unfolding start notify_thread
start-Sound not_started = starts
start-Sound (can_wake p) = tt
start-Sound can_ready = tt
start-Sound is_over = tt

wake-Sound : {r : Runnable} → Outside r → Sound (wake r)
unfolding wake notify_thread
wake-Sound not_started = tt
wake-Sound (can_wake p) = wakes p
wake-Sound can_ready = tt
wake-Sound is_over = tt

make_ready-Sound : {r : Runnable} → Outside r → Sound (make_ready r)
unfolding make_ready
make_ready-Sound not_started = tt
make_ready-Sound (can_wake p) = tt
make_ready-Sound can_ready = rests wait_rests
make_ready-Sound is_over = tt

pub Run-Shape : {r : Runnable} → Run r → Shape r
Run-Shape constructed = fresh
Run-Shape (thread_goes ends spurious run e) =
    subst Good e (thread_step-Good ends spurious (Run-Shape run))
Run-Shape (scheduler_goes spurious run e) =
    subst Good e (scheduler_step-Good spurious (Run-Shape run))
Run-Shape (is_started run free e) = subst Sound e (start-Sound (Shape-Outside (Run-Shape run) free))
Run-Shape (is_woken run free e) = subst Sound e (wake-Sound (Shape-Outside (Run-Shape run) free))
Run-Shape (is_readied run free e) =
    subst Sound e (make_ready-Sound (Shape-Outside (Run-Shape run) free))

-- The code of the application runs only in `pre_main`, while the scheduler sleeps in `start`, and in
-- `main`, while it sleeps in `wake`.
abbrev pub Apart : Runnable → Type 0
Apart r = elim r.thread [
  | in_pre_main ↦ (r.owner ≡ by_thread) × (r.scheduler ≡ sleeps in_start false)
  | in_main ↦ (r.owner ≡ by_thread) × (r.scheduler ≡ sleeps in_wake false) × (r.state ≡ running)
  | _ ↦ Unit
]

Shape-Apart : {r : Runnable} → Shape r → Apart r
Shape-Apart fresh = tt
Shape-Apart starts = tt
Shape-Apart waits_start = tt
Shape-Apart begins = tt
Shape-Apart prepares = (refl, refl)
Shape-Apart prepared = tt
Shape-Apart started = tt
Shape-Apart start_ends = tt
Shape-Apart (rests p) = tt
Shape-Apart (wakes p) = tt
Shape-Apart (waits_turn p) = tt
Shape-Apart (takes_turn p) = tt
Shape-Apart works = (refl, refl, refl)
Shape-Apart gives_back = tt
Shape-Apart given_back = tt
Shape-Apart wait_ends = tt
Shape-Apart waits = tt
Shape-Apart done = tt
Shape-Apart done_ends = tt
Shape-Apart over = tt

not_failed : (o : Outcome) → Good o → o ≢ failed
not_failed o good e = subst Good e good

-- In every run of a runnable, with spurious wake-ups at any time: the application's code runs only
-- while it holds the lock and the scheduler sleeps in the call that lets it run, and no assertion of
-- the thread fails.
pub takes_turns :
    (ends spurious : Bool) (r : Runnable) → Run r → Apart r × (thread_step ends spurious r ≢ failed)
takes_turns ends spurious r run = (
  Shape-Apart (Run-Shape run),
  not_failed (thread_step ends spurious r) (thread_step-Good ends spurious (Run-Shape run)),
)

-- The states with which the calls return.
abbrev pub Ends : Call → State → Type 0
Ends in_start s = s ≡ ready
Ends in_wake s = (s ≡ waiting) ⊎ (s ≡ terminated)

abbrev Leaves : Scheduler → Outcome → Type 0
Leaves (checks c) (moved r) = r.scheduler ≡ outside → Ends c r.state
Leaves (checks c) blocked = Unit
Leaves (checks c) failed = Unit
Leaves outside o = Unit
Leaves (sleeps c n) o = Unit

Shape-Leaves :
    (spurious : Bool) {r : Runnable} → Shape r → Leaves r.scheduler (scheduler_step spurious r)
unfolding scheduler_step comes_back
Shape-Leaves spurious fresh = tt
Shape-Leaves spurious starts = λ e. absurd (no_call e tt)
Shape-Leaves spurious waits_start = tt
Shape-Leaves spurious begins = tt
Shape-Leaves spurious prepares = tt
Shape-Leaves spurious prepared = tt
Shape-Leaves spurious started = tt
Shape-Leaves spurious start_ends = λ e. refl
Shape-Leaves spurious (rests p) = tt
Shape-Leaves spurious (wakes p) = λ e. absurd (no_call e tt)
Shape-Leaves spurious (waits_turn p) = tt
Shape-Leaves spurious (takes_turn p) = tt
Shape-Leaves spurious works = tt
Shape-Leaves spurious gives_back = tt
Shape-Leaves spurious given_back = tt
Shape-Leaves spurious wait_ends = λ e. inl refl
Shape-Leaves spurious waits = tt
Shape-Leaves spurious done = tt
Shape-Leaves spurious done_ends = λ e. inr refl
Shape-Leaves spurious over = tt

-- In every run, when the scheduler returns from `start`, the runnable is READY; when it returns from
-- `wake`, the runnable is WAITING or TERMINATED, and never READY or RUNNING.
pub call_returns :
    (spurious : Bool) (c : Call) (r r' : Runnable)
    → Run r
    → r.scheduler ≡ checks c
    → scheduler_step spurious r ≡ moved r'
    → r'.scheduler ≡ outside
    → Ends c r'.state
call_returns spurious c r r' run in_call e left =
    subst (Leaves (checks c)) e
      (subst (λ k. Leaves k (scheduler_step spurious r)) in_call
        (Shape-Leaves spurious (Run-Shape run)))
      left

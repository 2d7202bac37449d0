-- ===== src/Host/Default.antt =====
-- src/Networking/E_Host.cpp: the interface `DefaultSystemCall` of every host, for sleeping and the
-- time. `einval` is the constant of the C library.
pub mod Clock
use kensv.Prelude.{ℕ, ◌*◌, ◌+◌, ◌-◌, ◌/◌, ◌%◌, ◌^◌, not, Option, none, some, ◌==◌, if◌then◌else◌}
use kensv.Prelude.Maybe.{◌>>=◌}
use kensv.Syscall.{SystemCallParameter, get_uint64, get_pointer, nsleep, gettimeofday}
use kensv.TimeUtil.{usec, get_time}
use kensv.Host.{Host, return_system_call}

-- `struct timeval`.
pub record Timeval : Type 0 where
  pub tv_sec : ℕ
  pub tv_usec : ℕ

-- What the interface does with a call: it adds a timer, with a payload and a delay, or it returns the
-- call, after it has written the time or not.
pub data Reaction : Type 0 where
  adds_timer : (payload after : ℕ) → Reaction
  returns : Host → Option Timeval → Reaction

-- `DefaultSystemCall::systemCallback` at the time `now`.
unfoldable pub default_callback :
    (einval uuid : ℕ) → SystemCallParameter → (now : ℕ) → Host → Option Reaction
default_callback einval uuid param now h = elim param.syscall_number [
  | nsleep ↦ get_uint64 param.param0 >>= λ nanosleep. some (adds_timer uuid nanosleep)
  | gettimeofday ↦ (do
    tv ← get_pointer param.param0
    tz ← get_pointer param.param1
    if not (tz == 0)
        then (return_system_call uuid (2 ^ 32 - einval) h >>= λ h'. some (returns h' none))
        else if tv == 0
        then none
        else (return_system_call uuid 0 h >>= λ h'. some (
            returns h' (
              some (record {
                tv_sec = get_time now usec / 1000000;
                tv_usec = get_time now usec % 1000000;
              })))))
  | _ ↦ none
]

-- `DefaultSystemCall::timerCallback`.
unfoldable pub timer_callback : (payload : ℕ) → Host → Option Host
timer_callback payload h = return_system_call payload 0 h

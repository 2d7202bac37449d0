-- ===== src/Host/Default/Clock.antt =====
-- Sleeping and the time, from the call to its answer.
use native.Mathlib.Decide.{ℕ_discrete}
use kensv.Prelude.{
  ℕ, ◌+◌, ◌-◌, ◌*◌, ◌/◌, ◌%◌, ◌^◌, ◌≤◌, ◌<◌, ◌≡◌, ◌≢◌, refl, inl, inr, ◌⊎◌, true, false, none, some,
  length, ◌==◌, arith,
}
use kensv.Prelude.Table.{lookup}
use kensv.Syscall.{get_uint64, get_pointer}
use kensv.TimeUtil.{get_time, get_multiplier}
use kensv.TcpApplication.{param_of, nsleep_call, gettimeofday_call, nsleep_param}
use kensv.Host.{Namespace, ProcessInfo, Host, minus_one}
use kensv.Host.Calls.{Consistent, Waits, Returns, call_answered}
use kensv.Host.Syscalls.{namespace_for, installed, syscall_received}
use kensv.Host.Raise.{Raises, syscall_received-Raises}
use kensv.Host.Default.{Timeval, adds_timer, returns, default_callback, timer_callback}

abbrev pub default_space : Namespace
default_space = record { domain = 0; protocol = 0 }

-- In a host with consistent tables, an installed default interface, and fewer than 2 ^ 64 pending calls,
-- `nsleep` of a registered process is pending under a new id, and adds a timer with exactly that delay
-- and that id. Whenever the timer comes while the call is still pending, in consistent tables in which
-- the processes of all pending calls wait, each for one call, it returns 0 to that process and makes it
-- READY and runnable, and the call is not pending any more.
pub nsleep_answered :
    (einval pid nanosleep now : ℕ) (h : Host) (info : ProcessInfo)
    → Consistent h
    → pid ≢ minus_one
    → lookup pid h.process_info_map ≡ some info
    → installed default_space h.interface_map ≡ true
    → h.syscall_id_start < 2 ^ 64
    → length h.syscall_map < 2 ^ 64
    → (h' : Host) × (id : ℕ) × (syscall_received pid (param_of (nsleep_call nanosleep)) h
        ≡ some (h', some (default_space, id)))
      × Raises pid id h h'
      × (default_callback einval id (param_of (nsleep_call nanosleep)) now h'
          ≡ some (adds_timer id nanosleep))
      × ((k : Host)
          → Consistent k
          → Waits k
          → lookup id k.syscall_map ≡ some pid
          → (k' : Host) × (timer_callback id k ≡ some k') × Returns id 0 pid k k')
unfolding param_of nsleep_param default_callback get_uint64 timer_callback namespace_for
nsleep_answered einval pid nanosleep now h info c real known there small room =
    elim (syscall_received-Raises pid (param_of (nsleep_call nanosleep)) h info default_space c real
      known refl small room) [
        | inl (missing, none_there) ↦ absurd (ground (arith, missing, there))
        | inr (_, h', id, received, raises) ↦ (
          h',
          id,
          received,
          raises,
          refl,
          λ k ck wk pending. call_answered id 0 pid k ck wk pending,
        )
      ]

-- The time that `gettimeofday` yields: whole seconds and microseconds, cut off from nanoseconds.
abbrev pub IsTime : ℕ → Timeval → Type 0
IsTime now tv =
    (tv.tv_usec < 1000000)
    × ((tv.tv_sec * 1000000 + tv.tv_usec) * 1000 ≤ now)
    × (now < (tv.tv_sec * 1000000 + tv.tv_usec) * 1000 + 1000)

-- With consistent tables in which the processes of all pending calls wait, each for one call, a pending
-- `gettimeofday` with a place for the time is answered at once: with
-- 0 and the time, in seconds and microseconds, at most a microsecond behind the clock, if it has no
-- place for a time zone; with `-EINVAL` and no time otherwise.
pub gettimeofday_answers :
    (einval id pid tv tz now : ℕ) (h : Host)
    → Consistent h
    → Waits h
    → lookup id h.syscall_map ≡ some pid
    → tv ≢ 0
    → ((tz ≡ 0)
        × (h' : Host) × (time : Timeval) × (default_callback einval id
              (param_of (gettimeofday_call tv tz))
              now
              h
            ≡ some (returns h' (some time)))
        × IsTime now time
        × Returns id 0 pid h h')
      ⊎ ((tz ≢ 0)
          × (h' : Host) × (default_callback einval id (param_of (gettimeofday_call tv tz)) now h
              ≡ some (returns h' none))
          × Returns id (2 ^ 32 - einval) pid h h')
unfolding param_of default_callback get_pointer get_time get_multiplier
gettimeofday_answers einval id pid tv tz now h c w pending place = elim (ℕ_discrete tz 0) [
  | yes none_given ↦
      let (h', run, answers) = call_answered id 0 pid h c w pending in
      let no_zone : (tz == 0) ≡ true = ground arith in
      let a_place : (tv == 0) ≡ false = ground arith in
      inl (
        none_given,
        h',
        record { tv_sec = now / 1000 / 1000000; tv_usec = now / 1000 % 1000000 },
        rw (no_zone, a_place, run) refl,
        (omega arith, omega arith, omega arith),
        answers,
      )
  | no given ↦
      let (h', run, answers) = call_answered id (2 ^ 32 - einval) pid h c w pending in
      let a_zone : (tz == 0) ≡ false = ground arith in
      inr (given, h', rw (a_zone, run) refl, answers)
]

-- ===== src/Tests/Calls.antt =====
-- The system calls of the process of `Tests.Hosts`.
use kensv.Prelude.{ℕ, ◌-◌, ◌^◌, ◌≡◌, ◌≢◌, refl, ◌⊎◌, true, false, none, some, arith}
use kensv.Prelude.Table.{lookup}
use kensv.Syscall.{get_uint64}
use kensv.TcpApplication.{param_of, read_call, nsleep_call, gettimeofday_call, sleep_param}
use kensv.TcpApplication.Typed.{namespace_for-param_of, sleep_param_lem}
use kensv.Host.{Host}
use kensv.Host.Calls.{Consistent, Waits, Returns}
use kensv.Host.Syscalls.{namespace_for, installed, syscall_received}
use kensv.Host.Raise.{Raises, syscall_received-Raises}
use kensv.Host.Default.{Timeval, adds_timer, returns, default_callback, timer_callback}
use kensv.Host.Default.Clock.{default_space, IsTime, nsleep_answered, gettimeofday_answers}
use kensv.Tests.Hosts.{process, host, host-Consistent, host-Waits}

namespace_for-param_of_example :
    namespace_for (param_of (read_call 3 4096 100)) process.fd_to_domain
    ≡ some (record { domain = 2; protocol = 6 })
unfolding lookup
namespace_for-param_of_example = namespace_for-param_of (read_call 3 4096 100) process.fd_to_domain

sleep_param_lem_example : get_uint64 ((sleep_param 3).param0) ≡ some 3000000000
sleep_param_lem_example = sleep_param_lem 3 (omega arith)

-- The namespace of the descriptor 3 has no interface in this host.
syscall_received-Raises_example :
    ((installed (record { domain = 2; protocol = 6 }) host.interface_map ≡ false)
      × (syscall_received 4 (param_of (read_call 3 4096 100)) host ≡ some (host, none)))
    ⊎ ((installed (record { domain = 2; protocol = 6 }) host.interface_map ≡ true)
        × (h' : Host) × (id : ℕ) × (syscall_received 4 (param_of (read_call 3 4096 100)) host
            ≡ some (h', some (record { domain = 2; protocol = 6 }, id)))
        × Raises 4 id host h')
unfolding lookup
syscall_received-Raises_example =
    syscall_received-Raises 4 (param_of (read_call 3 4096 100)) host process
      (record { domain = 2; protocol = 6 }) host-Consistent (λ e. omega (arith, e)) refl
      (namespace_for-param_of (read_call 3 4096 100) process.fd_to_domain) (omega arith)
      (omega arith)

nsleep_answered_example :
    (h' : Host) × (id : ℕ) × (syscall_received 4 (param_of (nsleep_call 500)) host
      ≡ some (h', some (default_space, id)))
    × Raises 4 id host h'
    × (default_callback 22 id (param_of (nsleep_call 500)) 1000 h' ≡ some (adds_timer id 500))
    × ((k : Host)
        → Consistent k
        → Waits k
        → lookup id k.syscall_map ≡ some 4
        → (k' : Host) × (timer_callback id k ≡ some k') × Returns id 0 4 k k')
unfolding lookup installed
nsleep_answered_example =
    nsleep_answered 22 4 500 1000 host process host-Consistent (λ e. omega (arith, e)) refl refl
      (omega arith) (omega arith)

abbrev no_zone : ℕ
no_zone = 0

gettimeofday_answers_example :
    ((no_zone ≡ 0)
      × (h' : Host) × (time : Timeval) × (default_callback 22 9
            (param_of (gettimeofday_call 4096 no_zone))
            5000001000
            host
          ≡ some (returns h' (some time)))
      × IsTime 5000001000 time
      × Returns 9 0 4 host h')
    ⊎ ((no_zone ≢ 0)
        × (h' : Host) × (default_callback 22 9
              (param_of (gettimeofday_call 4096 no_zone))
              5000001000
              host
            ≡ some (returns h' none))
        × Returns 9 (2 ^ 32 - 22) 4 host h')
unfolding lookup
gettimeofday_answers_example =
    gettimeofday_answers 22 9 4 4096 no_zone 5000001000 host host-Consistent host-Waits refl
      (λ e. omega (arith, e))

-- ===== src/TcpApplication/Typed.antt =====
-- The functions of an application and what the host reads from their parameters.
use kensv.Prelude.{ℕ, ◌*◌, ◌^◌, ◌<◌, ◌≡◌, refl, ap, Option, some, arith}
use kensv.Prelude.Table.{Table, lookup}
use kensv.Syscall.{get_int, get_uint64}
use kensv.Host.{Namespace}
use kensv.Host.Syscalls.{namespace_for}
use kensv.TcpApplication.{
  Call, socket_call, close_call, bind_call, getsockname_call, getpeername_call, read_call,
  write_call, connect_call, listen_call, accept_call, nsleep_call, usleep_call, msleep_call,
  sleep_call, gettimeofday_call, param_of, sleep_param, msleep_param, usleep_param, nsleep_param,
}

-- The namespace that each function is meant for: that of its arguments, that of its descriptor, or
-- that of the default interface.
abbrev pub meant_for : Call → Table Namespace → Option Namespace
meant_for (socket_call domain type_unused protocol) fds =
    some (record { domain = domain; protocol = protocol })
meant_for (close_call fd) fds = lookup fd fds
meant_for (bind_call sockfd addr addrlen) fds = lookup sockfd fds
meant_for (getsockname_call sockfd addr addrlen) fds = lookup sockfd fds
meant_for (getpeername_call sockfd addr addrlen) fds = lookup sockfd fds
meant_for (read_call fd buf count) fds = lookup fd fds
meant_for (write_call fd buf count) fds = lookup fd fds
meant_for (connect_call sockfd addr addrlen) fds = lookup sockfd fds
meant_for (listen_call sockfd backlog) fds = lookup sockfd fds
meant_for (accept_call sockfd addr addrlen) fds = lookup sockfd fds
meant_for (nsleep_call n) fds = some (record { domain = 0; protocol = 0 })
meant_for (usleep_call n) fds = some (record { domain = 0; protocol = 0 })
meant_for (msleep_call n) fds = some (record { domain = 0; protocol = 0 })
meant_for (sleep_call n) fds = some (record { domain = 0; protocol = 0 })
meant_for (gettimeofday_call tv tz) fds = some (record { domain = 0; protocol = 0 })

-- The host reads the parameters of every function as the alternatives as which they were stored,
-- and takes the call to the namespace that the function is meant for: that of the arguments of
-- `socket`, that of the descriptor of a function on a socket, and that of the default interface
-- for sleeping and the time.
pub namespace_for-param_of :
    (call : Call) (fds : Table Namespace) → namespace_for (param_of call) fds ≡ meant_for call fds
unfolding namespace_for get_int param_of sleep_param msleep_param usleep_param nsleep_param
namespace_for-param_of (socket_call domain type_unused protocol) fds = refl
namespace_for-param_of (close_call fd) fds = refl
namespace_for-param_of (bind_call sockfd addr addrlen) fds = refl
namespace_for-param_of (getsockname_call sockfd addr addrlen) fds = refl
namespace_for-param_of (getpeername_call sockfd addr addrlen) fds = refl
namespace_for-param_of (read_call fd buf count) fds = refl
namespace_for-param_of (write_call fd buf count) fds = refl
namespace_for-param_of (connect_call sockfd addr addrlen) fds = refl
namespace_for-param_of (listen_call sockfd backlog) fds = refl
namespace_for-param_of (accept_call sockfd addr addrlen) fds = refl
namespace_for-param_of (nsleep_call n) fds = refl
namespace_for-param_of (usleep_call n) fds = refl
namespace_for-param_of (msleep_call n) fds = refl
namespace_for-param_of (sleep_call n) fds = refl
namespace_for-param_of (gettimeofday_call tv tz) fds = refl

-- `sleep` asks for that many seconds in nanoseconds, if they fit into 64 bits.
pub sleep_param_lem :
    (n : ℕ) → n * 1000000000 < 2 ^ 64 → get_uint64 ((sleep_param n).param0) ≡ some (n * 1000000000)
unfolding sleep_param msleep_param usleep_param nsleep_param get_uint64
sleep_param_lem n fits = ap some (omega arith)

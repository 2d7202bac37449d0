-- ===== src/TcpApplication.antt =====
-- src/Networking/TCP/E_TCPApplication.cpp: the parameters that each function hands to `E_Syscall`,
-- whose result is the function's. Pointers are addresses, `int` is a 32-bit word, and `size_t` and
-- `socklen_t` are cut to `int`.
pub mod Typed
use kensv.Prelude.{ℕ, ◌*◌, ◌%◌, ◌^◌}
use kensv.Syscall.{
  SystemCallParameter, Value, pointer, int32, uint64, socket, close, read, write, connect, listen,
  accept, bind, getsockname, getpeername, nsleep, gettimeofday,
}

abbrev null : Value
null = pointer 0

-- `(int)n`.
abbrev pub to_int : ℕ → ℕ
to_int n = n % 2 ^ 32

-- The functions of the class, with their arguments.
pub data Call : Type 0 where
  socket_call : (domain type_unused protocol : ℕ) → Call
  close_call : (fd : ℕ) → Call
  bind_call : (sockfd addr addrlen : ℕ) → Call
  getsockname_call : (sockfd addr addrlen : ℕ) → Call
  getpeername_call : (sockfd addr addrlen : ℕ) → Call
  read_call : (fd buf count : ℕ) → Call
  write_call : (fd buf count : ℕ) → Call
  connect_call : (sockfd addr addrlen : ℕ) → Call
  listen_call : (sockfd backlog : ℕ) → Call
  accept_call : (sockfd addr addrlen : ℕ) → Call
  nsleep_call : (nanosleep : ℕ) → Call
  usleep_call : (microsleep : ℕ) → Call
  msleep_call : (millisleep : ℕ) → Call
  sleep_call : (sleep : ℕ) → Call
  gettimeofday_call : (tv tz : ℕ) → Call

unfoldable pub nsleep_param : ℕ → SystemCallParameter
nsleep_param n = record { syscall_number = nsleep; param0 = uint64 n; param1 = null; param2 = null }

unfoldable pub usleep_param : ℕ → SystemCallParameter
unfolding nsleep_param
usleep_param n = nsleep_param (1000 * n % 2 ^ 64)

unfoldable pub msleep_param : ℕ → SystemCallParameter
unfolding usleep_param
msleep_param n = usleep_param (1000 * n % 2 ^ 64)

unfoldable pub sleep_param : ℕ → SystemCallParameter
unfolding msleep_param
sleep_param n = msleep_param (1000 * n % 2 ^ 64)

-- What a function passes to `E_Syscall`.
unfoldable pub param_of : Call → SystemCallParameter
unfolding sleep_param
param_of (socket_call domain type_unused protocol) = record {
  syscall_number = socket;
  param0 = int32 domain;
  param1 = int32 type_unused;
  param2 = int32 protocol;
}
param_of (close_call fd) = record {
  syscall_number = close;
  param0 = int32 fd;
  param1 = null;
  param2 = null;
}
param_of (bind_call sockfd addr addrlen) = record {
  syscall_number = bind;
  param0 = int32 sockfd;
  param1 = pointer addr;
  param2 = int32 (to_int addrlen);
}
param_of (getsockname_call sockfd addr addrlen) = record {
  syscall_number = getsockname;
  param0 = int32 sockfd;
  param1 = pointer addr;
  param2 = pointer addrlen;
}
param_of (getpeername_call sockfd addr addrlen) = record {
  syscall_number = getpeername;
  param0 = int32 sockfd;
  param1 = pointer addr;
  param2 = pointer addrlen;
}
param_of (read_call fd buf count) = record {
  syscall_number = read;
  param0 = int32 fd;
  param1 = pointer buf;
  param2 = int32 (to_int count);
}
param_of (write_call fd buf count) = record {
  syscall_number = write;
  param0 = int32 fd;
  param1 = pointer buf;
  param2 = int32 (to_int count);
}
param_of (connect_call sockfd addr addrlen) = record {
  syscall_number = connect;
  param0 = int32 sockfd;
  param1 = pointer addr;
  param2 = int32 (to_int addrlen);
}
param_of (listen_call sockfd backlog) = record {
  syscall_number = listen;
  param0 = int32 sockfd;
  param1 = int32 backlog;
  param2 = null;
}
param_of (accept_call sockfd addr addrlen) = record {
  syscall_number = accept;
  param0 = int32 sockfd;
  param1 = pointer addr;
  param2 = pointer addrlen;
}
param_of (nsleep_call n) = nsleep_param n
param_of (usleep_call n) = usleep_param n
param_of (msleep_call n) = msleep_param n
param_of (sleep_call n) = sleep_param n
param_of (gettimeofday_call tv tz) = record {
  syscall_number = gettimeofday;
  param0 = pointer tv;
  param1 = pointer tz;
  param2 = null;
}

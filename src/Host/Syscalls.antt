-- ===== src/Host/Syscalls.antt =====
-- src/Networking/E_Host.cpp: how an application issues a system call, and the branch of
-- messageReceived that hands it to an interface.
use kensv.Prelude.{
  ℕ, zero, suc, ◌+◌, ◌%◌, ◌^◌, Bool, true, false, not, ◌&&◌, Option, none, some, List, [], ◌∷◌,
  length, ◌==◌, if◌then◌else◌,
}
use kensv.Prelude.Maybe.{◌>>=◌, ◌>>◌, assert}
use kensv.Prelude.Table.{Table, lookup, assign}
use kensv.Syscall.{SystemCallParameter, get_int, socket, nsleep, gettimeofday}
use kensv.Runnable.{waiting}
use kensv.Host.{Namespace, ProcessInfo, Host, minus_one}

-- What `E_Syscall` does: it returns at once, or it sends the message `Syscall` of the process to its
-- host and waits.
pub data Issued : Type 0 where
  returned : ℕ → Issued
  waits : Host → (pid : ℕ) → SystemCallParameter → Issued

-- `E_Syscall` of a registered process, which runs: the result is set to -1 until the answer, and `wait`
-- sets the state.
unfoldable pub e_syscall : (pid : ℕ) → ProcessInfo → SystemCallParameter → Host → Issued
e_syscall pid info param h =
    if h.running
    then waits
        (record h {
          process_info_map =
              assign pid (record info { syscall_ret = minus_one; state = waiting })
                h.process_info_map;
        })
        pid param
    else returned minus_one

-- The domain and protocol of a call, from its parameters or from the descriptor that it names.
unfoldable pub namespace_for : SystemCallParameter → Table Namespace → Option Namespace
namespace_for param fds =
    let by_fd = get_int param.param0 >>= λ fd. lookup fd fds in
    let default_space = some (record { domain = 0; protocol = 0 }) in
    elim param.syscall_number [
      | socket ↦ (do
        domain ← get_int param.param0
        protocol ← get_int param.param2
        some (record { domain = domain; protocol = protocol }))
      | nsleep ↦ default_space
      | gettimeofday ↦ default_space
      | _ ↦ by_fd
    ]

-- Whether an interface is installed for the namespace.
unfoldable pub installed : Namespace → List Namespace → Bool
installed ns [] = false
installed ns (i ∷ is) =
    let rest = installed ns is in
    if (i.domain == ns.domain) && (i.protocol == ns.protocol) then true else rest

-- The loop that looks for an id, from `current` on; `none` when it comes back to its start.
unfoldable pub find_syscall_id : (fuel start current : ℕ) → Table ℕ → Option ℕ
find_syscall_id zero start current m = none
find_syscall_id (suc fuel) start current m =
    let next = (current + 1) % 2 ^ 64 in
    let rest = if next == start then none else find_syscall_id fuel start next m in
    elim (lookup current m) [ none ↦ some current | some _ ↦ rest ]

-- The branch for `Syscall`: the host, and the interface that is called, with the id of the call. No
-- interface is called if none is installed. As many rounds as there are pending calls, and one
-- more, are all that the loop needs.
unfoldable pub syscall_received :
    (pid : ℕ) → SystemCallParameter → Host → Option (Host × Option (Namespace × ℕ))
syscall_received pid param h = do
  assert (not (pid == minus_one))
  info ← lookup pid h.process_info_map
  assert (pid == info.pid)
  ns ← namespace_for param info.fd_to_domain
  if installed ns h.interface_map
      then (do
        id ←
            find_syscall_id (length h.syscall_map + 1) h.syscall_id_start h.syscall_id_start
              h.syscall_map
        some (
          record h {
            syscall_id_start = (id + 1) % 2 ^ 64;
            syscall_map = assign id pid h.syscall_map;
          },
          some (ns, id),
        ))
      else some (h, none)

-- ===== src/Host.antt =====
-- src/Networking/E_Host.cpp: the process table of a host, the file descriptors of the processes,
-- and the pending system calls. The log is not modelled. An `int` result is a 32-bit word.
pub mod Descriptors
pub mod Pids
pub mod Calls
pub mod Outgoing
pub mod Syscalls
pub mod Issue
pub mod Raise
pub mod Default
pub mod Modules
pub mod Passing
pub mod Messages
pub mod Timers
pub mod Install
use kensv.Prelude.{
  ℕ, zero, suc, ◌+◌, ◌%◌, ◌^◌, ◌-◌, Bool, true, false, Option, none, some, List, [], ◌∷◌, ltb, leb,
  ◌==◌, if◌then◌else◌,
}
use kensv.Prelude.Maybe.{◌>>=◌, ◌>>◌, assert}
use kensv.Prelude.Table.{Table, lookup, assign, erase}
use kensv.Runnable.{State, created, ready, waiting}
use kensv.Prelude.NumSet.{insert, remove}

-- `Namespace`.
pub record Namespace : Type 0 where
  pub domain : ℕ
  pub protocol : ℕ

-- `ProcessInfo`, with the `pid`, the `syscallRet` and the `state` of its application. The map is in the order of its
-- keys, as `std::map` is.
pub record ProcessInfo : Type 0 where
  pub pid : ℕ
  pub syscall_ret : ℕ
  pub state : State
  pub fd_to_domain : Table Namespace

-- `interface_map` has the namespaces of the interfaces that are installed, `runnable` the processes
-- whose applications are in the runnables of the system.
pub record Host : Type 0 where
  pub pid_start : ℕ
  pub running : Bool
  pub process_info_map : Table ProcessInfo
  pub syscall_map : Table ℕ
  pub syscall_id_start : ℕ
  pub interface_map : List Namespace
  pub runnable : List ℕ

abbrev pub max_fd : ℕ
max_fd = 65536

abbrev pub max_pid : ℕ
max_pid = 65536

abbrev pub minus_one : ℕ
minus_one = 2 ^ 32 - 1

-- `std::map::insert`: a key that is there keeps its value.
unfoldable pub insert_fd : ℕ → Namespace → Table Namespace → Table Namespace
insert_fd fd n [] = (fd, n) ∷ []
insert_fd fd n ((k, v) ∷ m) =
    let rest = insert_fd fd n m in
    if ltb fd k then (fd, n) ∷ (k, v) ∷ m else if fd == k then (k, v) ∷ m else (k, v) ∷ rest

-- The loop of `createFileDescriptor`.
unfoldable pub next_fd : ℕ → Table Namespace → ℕ
next_fd current [] = current
next_fd current ((k, v) ∷ m) =
    let rest = next_fd (current + 1) m in if k == current then rest else current

unfoldable pub create_file_descriptor : (domain protocol pid : ℕ) → Host → Option (Host × ℕ)
create_file_descriptor domain protocol pid h = elim (lookup pid h.process_info_map) [
  | none ↦ none
  | some info ↦
      let current = next_fd 3 info.fd_to_domain in
      if leb max_fd current
      then some (h, minus_one)
      else some (
        record h {
          process_info_map =
              assign pid
                (record info {
                  fd_to_domain =
                      insert_fd current (record { domain = domain; protocol = protocol })
                        info.fd_to_domain;
                })
                h.process_info_map;
        },
        current,
      )
]

unfoldable pub remove_file_descriptor : (pid fd : ℕ) → Host → Host
remove_file_descriptor pid fd h = elim (lookup pid h.process_info_map) [
  | none ↦ h
  | some info ↦ record h {
    process_info_map =
        assign pid (record info { fd_to_domain = erase fd info.fd_to_domain }) h.process_info_map;
  }
]

-- The loop of `registerProcess`: the first pid that is not in use, from `current` on; `none` when
-- the loop comes back to its start, or when the fuel ends.
unfoldable pub find_pid : (fuel start current : ℕ) → Table ProcessInfo → Option ℕ
find_pid zero start current m = none
find_pid (suc fuel) start current m =
    let next = (current + 1) % max_fd in
    let rest = if start == next then none else find_pid fuel start next m in
    elim (lookup current m) [ none ↦ some current | some _ ↦ rest ]

-- `registerProcess` of an application whose `syscallRet` is 0, and whose state is CREATED. `max_pid` rounds
-- are all that the loop makes.
unfoldable pub register_process : Host → Host × ℕ
register_process h = elim (find_pid max_pid h.pid_start h.pid_start h.process_info_map) [
  | none ↦ (h, minus_one)
  | some current ↦ (
    record h {
      pid_start = (current + 1) % max_pid;
      process_info_map =
          assign current
            (record { pid = current; syscall_ret = 0; state = created; fd_to_domain = [] })
            h.process_info_map;
    },
    current,
  )
]

abbrev pub is_created : State → Bool
is_created s = elim s [ created ↦ true | _ ↦ false ]

abbrev pub is_waiting : State → Bool
is_waiting s = elim s [ waiting ↦ true | _ ↦ false ]

-- `launchApplication`. `start`, which asserts that the application is new, returns when it is READY, as
-- `addRunnable` asserts.
unfoldable pub launch_application : (pid : ℕ) → Host → Option Host
launch_application pid h = do
  info ← lookup pid h.process_info_map
  assert (info.pid == pid)
  assert (is_created info.state)
  some (record h {
    process_info_map = assign pid (record info { state = ready }) h.process_info_map;
    runnable = insert pid h.runnable;
  })

-- `returnSystemCall`: the value goes to the application that made the call, which `ready` asserts to be
-- WAITING, and which is READY for `addRunnable`. `processInfoMap[pid]` of a process that has gone
-- makes an entry without an application, whose use is undefined: `none`.
unfoldable pub return_system_call : (uuid val : ℕ) → Host → Option Host
return_system_call uuid val h = elim (lookup uuid h.syscall_map) [
  | none ↦ some h
  | some pid ↦ (do
    info ← lookup pid h.process_info_map
    assert (is_waiting info.state)
    some (record h {
      process_info_map =
          assign pid (record info { syscall_ret = val; state = ready }) h.process_info_map;
      runnable = insert info.pid h.runnable;
      syscall_map = erase uuid h.syscall_map;
    }))
]

-- Whether a call of the process is pending.
unfoldable pub has_call : ℕ → Table ℕ → Bool
has_call pid [] = false
has_call pid ((_, p) ∷ m) = let rest = has_call pid m in if p == pid then true else rest

-- The branch of `messageReceived` for `Return`.
unfoldable pub return_received : (pid : ℕ) → Host → Option Host
return_received pid h = do
  info ← lookup pid h.process_info_map
  assert (if has_call info.pid h.syscall_map then false else true)
  some (record h {
    runnable = remove info.pid h.runnable;
    process_info_map = erase pid h.process_info_map;
  })

-- The loop of `cleanUp` over the calls that it has listed.
unfoldable pub return_all : Table ℕ → Host → Option Host
return_all [] h = some h
return_all ((uuid, _) ∷ calls) h = do h' ← return_system_call uuid minus_one h; return_all calls h'

-- `cleanUp`, with the number of unfinished calls.
unfoldable pub count : Table ℕ → ℕ
count [] = 0
count (_ ∷ m) = count m + 1

unfoldable pub clean_up : Host → Option (Host × ℕ)
clean_up h = do
  h' ← return_all h.syscall_map (record h { running = false })
  some (h', count h.syscall_map)

unfoldable pub is_running : Host → Bool
is_running h = h.running

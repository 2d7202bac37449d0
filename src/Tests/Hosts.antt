-- ===== src/Tests/Hosts.antt =====
-- A host with one process, which has a descriptor open and a system call pending.
use mathlib.Core.Option.{some-injective}
use kensv.Prelude.{
  ℕ, ◌≤◌, ◌<◌, ◌≡◌, ◌≢◌, refl, sym, ap, ◌∙◌, subst, inl, inr, ◌⊎◌, true, none, some, [], ◌∷◌, ◌==◌,
  arith, Bool-cases,
}
use kensv.Prelude.Table.{lookup}
use kensv.Host.{
  ProcessInfo, Host, max_fd, max_pid, minus_one, create_file_descriptor, register_process,
}
use kensv.Host.Descriptors.{
  Ascending, Ordered, namespace_of, Creates, create_file_descriptor-Creates,
}
use kensv.Runnable.{waiting}
use kensv.Host.Calls.{Consistent, Waits}
use kensv.Host.Pids.{Registers, register_process-Registers}

abbrev pub process : ProcessInfo
process = record {
  pid = 4;
  syscall_ret = 0;
  state = waiting;
  fd_to_domain = (3, record { domain = 2; protocol = 6 }) ∷ [];
}

abbrev pub host : Host
host = record {
  pid_start = 5;
  running = true;
  process_info_map = (4, process) ∷ [];
  syscall_map = (9, 4) ∷ [];
  syscall_id_start = 10;
  interface_map = record { domain = 0; protocol = 0 } ∷ [];
  runnable = [];
}

abbrev idle_host : Host
idle_host = record host { syscall_map = [] }

only_process :
    (pid : ℕ) (info : ProcessInfo)
    → lookup pid ((4, process) ∷ []) ≡ some info
    → (4 ≡ pid) × (process ≡ info)
unfolding lookup
only_process pid info e = elim (Bool-cases (4 == pid)) [
  | inl it ↦ let both : some process ≡ some info = rw it at e in (ground arith, cc)
  | inr other ↦ let both : none ≡ some info = rw other at e in cc
]

host-Ordered : Ordered host
host-Ordered pid info e =
    subst (λ i. Ascending 3 i.fd_to_domain) ((only_process pid info e).1) (omega arith, tt)

pub host-Consistent : Consistent host
unfolding lookup
host-Consistent = record {
  own_pid =
      λ pid info e. let (it, is_it) = only_process pid info e in subst (λ i. i.pid ≡ pid) is_it it;
  caller = λ uuid pid e gone. ground arith;
}

only_call : (u p : ℕ) → lookup u ((9, 4) ∷ []) ≡ some p → (9 ≡ u) × (4 ≡ p)
unfolding lookup
only_call u p e = elim (Bool-cases (9 == u)) [
  | inl it ↦ (ground arith, some-injective _ _ (rw it at e))
  | inr other ↦ let no : none ≡ some p = rw other at e in cc
]

pub host-Waits : Waits host
host-Waits = record {
  caller_waits = λ u p i e known. ap (λ i. i.state) (sym (only_process p i known).1);
  one_call = λ u v p e e'. sym (only_call u p e).0 ∙ (only_call v p e').0;
}

idle_host-Consistent : Consistent idle_host
unfolding lookup
idle_host-Consistent = record {
  own_pid =
      λ pid info e. let (it, is_it) = only_process pid info e in subst (λ i. i.pid ≡ pid) is_it it;
  caller = λ uuid pid e gone. cc;
}

create_file_descriptor-Creates_example :
    ((create_file_descriptor 2 17 4 host ≡ some (host, minus_one))
      × ((k : ℕ) → 3 ≤ k → k < max_fd → namespace_of 4 k host ≢ none))
    ⊎ ((h' : Host) × (fd : ℕ) × (create_file_descriptor 2 17 4 host ≡ some (h', fd))
        × Creates 2 17 4 host h' fd)
unfolding lookup
create_file_descriptor-Creates_example =
    create_file_descriptor-Creates 2 17 4 host process refl host-Ordered

register_process-Registers_example :
    ((register_process host ≡ (host, minus_one))
      × ((p : ℕ) → p < max_pid → lookup p host.process_info_map ≢ none))
    ⊎ ((h' : Host) × (pid : ℕ) × (register_process host ≡ (h', pid)) × Registers host h' pid)
register_process-Registers_example = register_process-Registers host (omega arith)

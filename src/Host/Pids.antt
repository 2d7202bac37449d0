-- ===== src/Host/Pids.antt =====
-- Process ids: `registerProcess` gives out a free one, if there is one.
use kensv.Prelude.{
  ℕ, zero, suc, ◌+◌, ◌%◌, ◌-◌, ◌≤◌, ◌<◌, ◌≡◌, ◌≢◌, refl, subst, inl, inr, ◌⊎◌, Option, none, some,
  [], ◌==◌, if◌then◌else◌, arith, Bool-cases, Option-cases,
}
use kensv.Prelude.Table.{Table, lookup, assign, lookup-assign}
use kensv.Runnable.{created}
use kensv.Host.{ProcessInfo, Host, max_fd, max_pid, minus_one, find_pid, register_process}

-- A free pid is found, or none is free from the `i`-th candidate on.
abbrev Finds : (start i : ℕ) → Table ProcessInfo → Option ℕ → Type 0
Finds start i m none = (j : ℕ) → i ≤ j → j < max_pid → lookup ((start + j) % max_fd) m ≢ none
Finds start i m (some c) = (c < max_pid) × (lookup c m ≡ none)

Finds-widen :
    (start i : ℕ) (m : Table ProcessInfo) (r : Option ℕ)
    → lookup ((start + i) % max_fd) m ≢ none
    → Finds start (i + 1) m r
    → Finds start i m r
Finds-widen start i m none used more = λ j ge lt. elim (Bool-cases (i == j)) [
  | inl same ↦ subst (λ j. lookup ((start + j) % max_fd) m ≢ none) (ground arith) used
  | inr later ↦ more j (ground arith) lt
]
Finds-widen start i m (some c) used found = found

find_pid-Finds :
    (fuel start i c : ℕ) (m : Table ProcessInfo)
    → start < max_pid
    → fuel + i ≡ max_pid
    → c ≡ (start + i) % max_fd
    → Finds start i m (find_pid fuel start c m)
unfolding find_pid
find_pid-Finds zero start i c m h all at = λ j ge lt. absurd (omega arith)
find_pid-Finds (suc fuel) start i c m h all at = elim (Option-cases (lookup c m)) [
  | inl free ↦ rw (free, find_pid) (omega arith, free)
  | inr (info, used) ↦ elim (Bool-cases (start == (c + 1) % max_fd)) [
    | inl back ↦
        rw (used, find_pid, back)
          (λ j ge lt e. let same : (start + j) % max_fd ≡ c = ground arith in cc)
    | inr on ↦
        rw (used, find_pid, on)
          (Finds-widen start i m _ (λ e. cc)
            (find_pid-Finds fuel start (i + 1) ((c + 1) % max_fd) m h (omega arith) (omega arith)))
  ]
]

-- A pid below the limit that was not in use, of a fresh process; the others are as they were.
pub record Registers (h h' : Host) (pid : ℕ) : Type 0 where
  pub below_limit : pid < max_pid
  pub was_free : lookup pid h.process_info_map ≡ none
  pub processes :
      (p : ℕ)
      → lookup p h'.process_info_map ≡ (
          if pid == p
          then some (record { pid = pid; syscall_ret = 0; state = created; fd_to_domain = [] })
          else lookup p h.process_info_map)
  pub next : h'.pid_start < max_pid
  pub calls : h'.syscall_map ≡ h.syscall_map

-- If the next pid is below 65536, `registerProcess` gives a process a pid below 65536 that was not
-- in use and leaves the others as they were, or returns -1, without a change, if all 65536 are in
-- use.
pub register_process-Registers :
    (h : Host)
    → h.pid_start < max_pid
    → ((register_process h ≡ (h, minus_one))
        × ((p : ℕ) → p < max_pid → lookup p h.process_info_map ≢ none))
      ⊎ ((h' : Host) × (pid : ℕ) × (register_process h ≡ (h', pid)) × Registers h h' pid)
unfolding register_process
register_process-Registers h small =
    let m : Table ProcessInfo = h.process_info_map in
    let result : Finds h.pid_start 0 m (find_pid max_pid h.pid_start h.pid_start m) =
      find_pid-Finds max_pid h.pid_start 0 h.pid_start m small refl (omega arith) in
    elim (Option-cases (find_pid max_pid h.pid_start h.pid_start m)) [
      | inl full ↦
          let none_free = subst (Finds h.pid_start 0 m) full result in
          inl (
            rw (full, register_process) refl,
            λ p lt.
                subst (λ k. lookup k m ≢ none) (omega arith)
                  (none_free ((p + max_pid - h.pid_start) % max_pid) (omega arith) (omega arith)),
          )
      | inr (c, found) ↦
          let (below, free) = subst (Finds h.pid_start 0 m) found result in
          inr (
            record h {
              pid_start = (c + 1) % max_pid;
              process_info_map =
                  assign c (record { pid = c; syscall_ret = 0; state = created; fd_to_domain = [] })
                    m;
            },
            c,
            rw (found, register_process) refl,
            record {
              below_limit = below;
              was_free = free;
              processes = λ p. lookup-assign c p _ m;
              next = omega arith;
              calls = refl;
            },
          )
    ]

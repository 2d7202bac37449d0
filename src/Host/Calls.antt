-- ===== src/Host/Calls.antt =====
-- Pending system calls: each belongs to a registered process, which waits for its answer.
use kensv.Prelude.{
  ℕ, ◌≡◌, ◌≢◌, refl, sym, ap, subst, ◌∙◌, inl, inr, ◌⊎◌, true, false, none, some, [], ◌∷◌, ◌==◌,
  if◌then◌else◌, arith, Bool-cases, Option-cases,
}
use kensv.Prelude.Table.{Table, lookup, assign, erase, lookup-assign, lookup-erase}
use kensv.Prelude.NumSet.{member, insert, remove, member-insert, member-remove}
use kensv.Runnable.{State, created, starting, ready, running, waiting, terminated}
use kensv.Host.{ProcessInfo, Host, is_waiting, return_system_call, has_call, return_received}

-- Every process is entered under its own pid, and every pending call is of a registered process.
pub record Consistent (h : Host) : Type 0 where
  pub own_pid :
      (pid : ℕ) (info : ProcessInfo) → lookup pid h.process_info_map ≡ some info → info.pid ≡ pid
  pub caller :
      (uuid pid : ℕ) → lookup uuid h.syscall_map ≡ some pid → lookup pid h.process_info_map ≢ none

-- The process of a pending call waits, for that call only.
pub record Waits (h : Host) : Type 0 where
  pub caller_waits :
      (uuid pid : ℕ) (info : ProcessInfo)
      → lookup uuid h.syscall_map ≡ some pid
      → lookup pid h.process_info_map ≡ some info
      → info.state ≡ waiting
  pub one_call :
      (u v pid : ℕ) → lookup u h.syscall_map ≡ some pid → lookup v h.syscall_map ≡ some pid → u ≡ v

pub has_call-lookup :
    (pid : ℕ) (m : Table ℕ)
    → has_call pid m ≡ false
    → (uuid p : ℕ) → lookup uuid m ≡ some p
    → p ≢ pid
unfolding has_call lookup
has_call-lookup pid [] h uuid p e = cc
has_call-lookup pid ((k, q) ∷ m) h uuid p e = elim (Bool-cases (q == pid)) [
  | inl it ↦ absurd (ground arith)
  | inr other ↦ let rest = has_call-lookup pid m (ground arith) uuid p in ground (arith, rest)
]

erased {ℓ} :
    {V : Type ℓ} (k j : ℕ) (v : V) (m : Table V)
    → lookup j (erase k m) ≡ some v
    → lookup j m ≡ some v
erased k j v m e = elim (Bool-cases (k == j)) [
  | inl it ↦ let no : none ≡ some v = rw it at (sym (lookup-erase k j m) ∙ e) in cc
  | inr other ↦ rw other at (sym (lookup-erase k j m) ∙ e)
]

-- The registered processes after one of them got a new entry with the same pid.
pub assigned :
    (pid : ℕ) (info info' : ProcessInfo) (m : Table ProcessInfo)
    → lookup pid m ≡ some info
    → info'.pid ≡ info.pid
    → ((p : ℕ) (i : ProcessInfo) → lookup p m ≡ some i → i.pid ≡ p)
    → ((p : ℕ) (i : ProcessInfo) → lookup p (assign pid info' m) ≡ some i → i.pid ≡ p)
      × ((p : ℕ) → lookup p m ≢ none → lookup p (assign pid info' m) ≢ none)
assigned pid info info' m known same own = (
  λ p i e. elim (Bool-cases (pid == p)) [
    | inl it ↦
        let both : some info' ≡ some i = rw it at (sym (lookup-assign pid p info' m) ∙ e) in
        let is_it : info' ≡ i = cc in
        let found = own pid info known in
        let as_new : i.pid ≡ info'.pid = ap (λ j. j.pid) (sym is_it) in
        ground (arith, found, as_new, same)
    | inr other ↦ own p i (rw other at (sym (lookup-assign pid p info' m) ∙ e))
  ],
  λ p there gone. elim (Bool-cases (pid == p)) [
    | inl it ↦
        let both : some info' ≡ none = rw it at (sym (lookup-assign pid p info' m) ∙ gone) in cc
    | inr other ↦ there (rw other at (sym (lookup-assign pid p info' m) ∙ gone))
  ],
)

-- What the answer to a pending call does: the process that made the call gets the value and is
-- runnable; the call is not pending any more; all others are as they were.
pub record Returns (uuid val pid : ℕ) (h h' : Host) : Type 0 where
  pub value :
      (info : ProcessInfo)
      → lookup pid h.process_info_map ≡ some info
      → lookup pid h'.process_info_map ≡ some (record info { syscall_ret = val; state = ready })
  pub others : (p : ℕ) → p ≢ pid → lookup p h'.process_info_map ≡ lookup p h.process_info_map
  pub runs : (p : ℕ) → member p h'.runnable ≡ (if pid == p then true else member p h.runnable)
  pub answered :
      (u : ℕ) → lookup u h'.syscall_map ≡ (if uuid == u then none else lookup u h.syscall_map)
  pub consistent : Consistent h'
  pub waits : Waits h → Waits h'

-- With the only call of a process, its answer goes.
Waits-answered :
    (uuid pid : ℕ) (h h' : Host)
    → lookup uuid h.syscall_map ≡ some pid
    → ((p : ℕ) → p ≢ pid → lookup p h'.process_info_map ≡ lookup p h.process_info_map)
    → ((u : ℕ) → lookup u h'.syscall_map ≡ (if uuid == u then none else lookup u h.syscall_map))
    → Waits h
    → Waits h'
Waits-answered uuid pid h h' pending others answered w = record {
  caller_waits = λ u p i e known.
      let (ne, before) = was u p e in
      let other : p ≢ pid = λ same. ne (w.one_call uuid u pid pending (before ∙ ap some same)) in
      w.caller_waits u p i before (sym (others p other) ∙ known);
  one_call = λ u v p e e'. w.one_call u v p (was u p e).1 (was v p e').1;
}
  where
    was :
        (u p : ℕ)
        → lookup u h'.syscall_map ≡ some p
        → (uuid ≢ u) × (lookup u h.syscall_map ≡ some p)
    was u p e = elim (Bool-cases (uuid == u)) [
      | inl it ↦ let no : none ≡ some p = rw it at (sym (answered u) ∙ e) in cc
      | inr other ↦ (ground arith, rw other at (sym (answered u) ∙ e))
    ]

State-cases : (s : State) → (s ≡ waiting) ⊎ ((s ≢ waiting) × (is_waiting s ≡ false))
State-cases created = inr (λ e. cc, refl)
State-cases starting = inr (λ e. cc, refl)
State-cases ready = inr (λ e. cc, refl)
State-cases running = inr (λ e. cc, refl)
State-cases waiting = inl refl
State-cases terminated = inr (λ e. cc, refl)

pub return_system_call-Returns :
    (uuid val pid : ℕ) (h : Host) (info : ProcessInfo)
    → Consistent h
    → lookup uuid h.syscall_map ≡ some pid
    → lookup pid h.process_info_map ≡ some info
    → ((info.state ≢ waiting) × (return_system_call uuid val h ≡ none))
      ⊎ ((info.state ≡ waiting)
          × (h' : Host) × (return_system_call uuid val h ≡ some h')
          × Returns uuid val pid h h')
unfolding return_system_call
return_system_call-Returns uuid val pid h info c pending known = elim (State-cases info.state) [
  | inr (busy, test) ↦ inl (busy, rw (pending, return_system_call, known, test) refl)
  | inl waits ↦
      let info' : ProcessInfo = record info { syscall_ret = val; state = ready } in
      let h' : Host = record h {
        process_info_map = assign pid info' h.process_info_map;
        runnable = insert info.pid h.runnable;
        syscall_map = erase uuid h.syscall_map;
      } in
      let self : (pid == pid) ≡ true = ground arith in
      let own : info.pid ≡ pid = c.own_pid pid info known in
      let test : is_waiting info.state ≡ true = ap is_waiting waits in
      let (own_pid, there) = assigned pid info info' h.process_info_map known refl c.own_pid in
      let others : (p : ℕ) → p ≢ pid → lookup p h'.process_info_map ≡ lookup p h.process_info_map =
        λ p ne. lookup-assign pid p info' h.process_info_map ∙ ground arith in
      inr (
        waits,
        h',
        rw (pending, return_system_call, known, test) refl,
        record {
          value = λ i e.
              let is_it : info ≡ i = cc in
              subst
                (λ i.
                  lookup pid h'.process_info_map
                  ≡ some (record i { syscall_ret = val; state = ready }))
                is_it (lookup-assign pid pid info' h.process_info_map ∙ rw self refl);
          others = others;
          runs = λ p. member-insert info.pid p h.runnable ∙ ground arith;
          answered = λ u. lookup-erase uuid u h.syscall_map;
          consistent = record {
            own_pid = own_pid;
            caller = λ u p e. there p (c.caller u p (erased uuid u p h.syscall_map e));
          };
          waits =
              Waits-answered uuid pid h h' pending others (λ u. lookup-erase uuid u h.syscall_map);
        },
      )
]

-- A pending call is answered, in consistent tables with the processes of the calls waiting.
pub call_answered :
    (uuid val pid : ℕ) (h : Host)
    → Consistent h
    → Waits h
    → lookup uuid h.syscall_map ≡ some pid
    → (h' : Host) × (return_system_call uuid val h ≡ some h') × Returns uuid val pid h h'
call_answered uuid val pid h c w pending = elim (Option-cases (lookup pid h.process_info_map)) [
  | inl gone ↦ absurd (c.caller uuid pid pending gone)
  | inr (info, known) ↦ elim (return_system_call-Returns uuid val pid h info c pending known) [
    | inl (busy, failed) ↦ absurd (busy (w.caller_waits uuid pid info pending known))
    | inr (waits, h', run, answers) ↦ (h', run, answers)
  ]
]

-- The process has gone, and is not runnable; all others are as they were.
pub record Exits (pid : ℕ) (h h' : Host) : Type 0 where
  pub processes :
      (p : ℕ)
      → lookup p h'.process_info_map ≡ (if pid == p then none else lookup p h.process_info_map)
  pub runs : (p : ℕ) → member p h'.runnable ≡ (if pid == p then false else member p h.runnable)
  pub calls : h'.syscall_map ≡ h.syscall_map
  pub consistent : Consistent h'
  pub waits : Waits h → Waits h'

-- With consistent tables, the message `Return` of a registered process removes it, and from the
-- runnables, and changes no other process; unless a call of it is pending, in which case an
-- assertion fails.
pub return_received-Exits :
    (pid : ℕ) (h : Host) (info : ProcessInfo)
    → Consistent h
    → lookup pid h.process_info_map ≡ some info
    → ((has_call pid h.syscall_map ≡ true) × (return_received pid h ≡ none))
      ⊎ ((h' : Host) × (return_received pid h ≡ some h') × Exits pid h h')
unfolding return_received
return_received-Exits pid h info c known =
    let own : info.pid ≡ pid = c.own_pid pid info known in
    let same_calls : has_call info.pid h.syscall_map ≡ has_call pid h.syscall_map =
      ap (λ p. has_call p h.syscall_map) own in
    elim (Bool-cases (has_call pid h.syscall_map)) [
      | inl busy ↦
          let busy' : has_call info.pid h.syscall_map ≡ true = same_calls ∙ busy in
          inl (busy, rw (known, busy') refl)
      | inr idle ↦
          let idle' : has_call info.pid h.syscall_map ≡ false = same_calls ∙ idle in
          inr (
            record h {
              runnable = remove info.pid h.runnable;
              process_info_map = erase pid h.process_info_map;
            },
            rw (known, idle') refl,
            record {
              processes = λ p. lookup-erase pid p h.process_info_map;
              runs = λ p. member-remove info.pid p h.runnable ∙ ground arith;
              calls = refl;
              consistent = record {
                own_pid = λ p i e. c.own_pid p i (erased pid p i h.process_info_map e);
                caller = λ u p e gone.
                    let ne = has_call-lookup pid h.syscall_map idle u p e in
                    c.caller u p e
                      (sym (lookup-erase pid p h.process_info_map ∙ ground arith) ∙ gone);
              };
              waits = λ w. record {
                caller_waits = λ u p i e there.
                    w.caller_waits u p i e (erased pid p i h.process_info_map there);
                one_call = w.one_call;
              };
            },
          )
    ]

-- ===== src/Host/Raise.antt =====
-- A system call is raised: it gets an id that no pending call has.
use mathlib.Core.Option.{some-injective}
use kensv.Prelude.{
  ℕ, zero, suc, ◌+◌, ◌%◌, ◌^◌, ◌<◌, ◌≡◌, ◌≢◌, refl, sym, ap, subst, ◌∙◌, inl, inr, ◌⊎◌, Bool, true,
  false, Option, none, some, List, [], ◌∷◌, length, ◌==◌, if◌then◌else◌, arith, Bool-cases,
  Option-cases,
}
use kensv.Prelude.Table.{Table, lookup, assign, lookup-assign}
use kensv.Prelude.NumSet.{member}
use kensv.Packet.{Allocator, search_uuid, allocate_packet_uuid}
use kensv.Packet.Ids.{allocate_packet_uuid-Allocates}
use kensv.Syscall.{SystemCallParameter}
use kensv.Runnable.{waiting}
use kensv.Host.{Namespace, ProcessInfo, Host, minus_one, has_call}
use kensv.Host.Calls.{Consistent, Waits, has_call-lookup}
use kensv.Host.Syscalls.{namespace_for, installed, find_syscall_id, syscall_received}

abbrev keys : Table ℕ → List ℕ
keys [] = []
keys ((k, v) ∷ m) = k ∷ keys m

length-keys : (m : Table ℕ) → length (keys m) ≡ length m
length-keys [] = refl
length-keys ((k, v) ∷ m) = ap suc (length-keys m)

abbrev is_there : Option ℕ → Bool
is_there none = false
is_there (some v) = true

member-keys : (k : ℕ) (m : Table ℕ) → member k (keys m) ≡ is_there (lookup k m)
unfolding member lookup
member-keys k [] = refl
member-keys k ((j, v) ∷ m) = ground (arith, member-keys k m)

abbrev id_of : Option (Allocator × ℕ) → Option ℕ
id_of none = none
id_of (some (a, id)) = some id

-- The loop is that of the packet ids, over the keys of the map.
find_syscall_id-search_uuid :
    (fuel start current : ℕ) (m : Table ℕ)
    → find_syscall_id fuel start current m
      ≡ id_of (
          search_uuid fuel current (record { packet_uuid_set = keys m; packet_uuid_start = start }))
unfolding find_syscall_id search_uuid
find_syscall_id-search_uuid zero start current m = refl
find_syscall_id-search_uuid (suc fuel) start current m = elim (Option-cases (lookup current m)) [
  | inl free ↦
      let not_used : member current (keys m) ≡ false = member-keys current m ∙ ap is_there free in
      rw (free, find_syscall_id, not_used) refl
  | inr (v, used) ↦
      let in_use : member current (keys m) ≡ true = member-keys current m ∙ ap is_there used in
      rw (used, find_syscall_id, in_use)
        (elim (Bool-cases ((current + 1) % 2 ^ 64 == start)) [
          | inl back ↦ rw back refl
          | inr on ↦ rw on (find_syscall_id-search_uuid fuel start ((current + 1) % 2 ^ 64) m)
        ])
]

-- A free id is found while fewer than 2 ^ 64 calls are pending.
find_syscall_id-free :
    (start : ℕ) (m : Table ℕ)
    → start < 2 ^ 64
    → length m < 2 ^ 64
    → (id : ℕ) × (find_syscall_id (length m + 1) start start m ≡ some id) × (lookup id m ≡ none)
unfolding allocate_packet_uuid
find_syscall_id-free start m small room =
    let a : Allocator = record { packet_uuid_set = keys m; packet_uuid_start = start } in
    let found = allocate_packet_uuid-Allocates a small (omega (arith, length-keys m)) in
    let free = sym (member-keys found.uuid m) ∙ found.was_free in
    (
      found.uuid,
      find_syscall_id-search_uuid (length m + 1) start start m
          ∙ subst (λ n. id_of (search_uuid (n + 1) start a) ≡ some found.uuid) (length-keys m)
              (ap id_of found.finds),
      not_there (lookup found.uuid m) free,
    )
  where
    not_there : (o : Option ℕ) → is_there o ≡ false → o ≡ none
    not_there none h = refl
    not_there (some v) h = cc

-- The call is pending under an id that no pending call had; the other calls and the processes are as
-- they were.
pub record Raises (pid id : ℕ) (h h' : Host) : Type 0 where
  pub was_free : lookup id h.syscall_map ≡ none
  pub pending :
      (u : ℕ) → lookup u h'.syscall_map ≡ (if id == u then some pid else lookup u h.syscall_map)
  pub processes : h'.process_info_map ≡ h.process_info_map
  pub next : h'.syscall_id_start < 2 ^ 64
  pub consistent : Consistent h'
  pub waits :
      ((info : ProcessInfo) → lookup pid h.process_info_map ≡ some info → info.state ≡ waiting)
      → has_call pid h.syscall_map ≡ false
      → Waits h
      → Waits h'

Waits-raised :
    (pid id : ℕ) (h h' : Host)
    → h'.process_info_map ≡ h.process_info_map
    → ((u : ℕ) → lookup u h'.syscall_map ≡ (if id == u then some pid else lookup u h.syscall_map))
    → ((info : ProcessInfo) → lookup pid h.process_info_map ≡ some info → info.state ≡ waiting)
    → has_call pid h.syscall_map ≡ false
    → Waits h
    → Waits h'
Waits-raised pid id h h' same pending waits idle w = record {
  caller_waits = λ u p i e known.
      let known' = subst (λ m. lookup p m ≡ some i) same known in
      elim (was u p e) [
        | inl (_, it) ↦ waits i (subst (λ p. lookup p h.process_info_map ≡ some i) it known')
        | inr (before, _) ↦ w.caller_waits u p i before known'
      ];
  one_call = λ u v p e e'. elim (was u p e) [
    | inl (new, it) ↦ elim (was v p e') [
      | inl (new', _) ↦ sym new ∙ new'
      | inr (_, other) ↦ absurd (other it)
    ]
    | inr (before, other) ↦ elim (was v p e') [
      | inl (_, it) ↦ absurd (other it)
      | inr (before', _) ↦ w.one_call u v p before before'
    ]
  ];
}
  where
    was :
        (u p : ℕ)
        → lookup u h'.syscall_map ≡ some p
        → ((id ≡ u) × (p ≡ pid)) ⊎ ((lookup u h.syscall_map ≡ some p) × (p ≢ pid))
    was u p e = elim (Bool-cases (id == u)) [
      | inl it ↦
          let both : some pid ≡ some p = rw it at (sym (pending u) ∙ e) in
          inl (ground arith, sym (some-injective _ _ both))
      | inr other ↦
          let before = rw other at (sym (pending u) ∙ e) in
          inr (before, has_call-lookup pid h.syscall_map idle u p before)
    ]

-- With consistent tables and fewer than 2 ^ 64 pending calls, a call of a registered process whose
-- namespace can be read goes to the interface of that namespace, if one is installed, under an id
-- that no pending call has. If none is installed, the host does nothing: the call is not pending, so
-- that nothing will ever answer it. A call of a process that waits and has no other call keeps the
-- processes of all pending calls waiting, each for one call.
pub syscall_received-Raises :
    (pid : ℕ) (param : SystemCallParameter) (h : Host) (info : ProcessInfo) (ns : Namespace)
    → Consistent h
    → pid ≢ minus_one
    → lookup pid h.process_info_map ≡ some info
    → namespace_for param info.fd_to_domain ≡ some ns
    → h.syscall_id_start < 2 ^ 64
    → length h.syscall_map < 2 ^ 64
    → ((installed ns h.interface_map ≡ false) × (syscall_received pid param h ≡ some (h, none)))
      ⊎ ((installed ns h.interface_map ≡ true)
          × (h' : Host) × (id : ℕ) × (syscall_received pid param h ≡ some (h', some (ns, id)))
          × Raises pid id h h')
unfolding syscall_received
syscall_received-Raises pid param h info ns c real known names small room =
    let own : (pid == info.pid) ≡ true = ground (arith, c.own_pid pid info known) in
    let pid_ok : (pid == minus_one) ≡ false = ground arith in
    elim (Bool-cases (installed ns h.interface_map)) [
      | inl there ↦
          let (id, found, free) =
            find_syscall_id-free h.syscall_id_start h.syscall_map small room in
          inr (
            there,
            record h {
              syscall_id_start = (id + 1) % 2 ^ 64;
              syscall_map = assign id pid h.syscall_map;
            },
            id,
            rw (pid_ok, known, own, names, there, found) refl,
            record {
              was_free = free;
              pending = λ u. lookup-assign id u pid h.syscall_map;
              processes = refl;
              next = omega arith;
              consistent = record {
                own_pid = c.own_pid;
                caller = λ u p e. elim (Bool-cases (id == u)) [
                  | inl it ↦
                      let both : some pid ≡ some p =
                        rw it at (sym (lookup-assign id u pid h.syscall_map) ∙ e) in
                      let same : pid ≡ p = ground arith in
                      subst (λ p. lookup p h.process_info_map ≢ none) same (λ gone. cc)
                  | inr other ↦
                      c.caller u p (rw other at (sym (lookup-assign id u pid h.syscall_map) ∙ e))
                ];
              };
              waits = Waits-raised pid id h _ refl (λ u. lookup-assign id u pid h.syscall_map);
            },
          )
      | inr missing ↦ inl (missing, rw (pid_ok, known, own, names, missing) refl)
    ]

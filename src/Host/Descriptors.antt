-- ===== src/Host/Descriptors.antt =====
-- File descriptors: the least free one is given out, and a removed one is free again.
use kensv.Prelude.{
  ℕ, ◌+◌, ◌≤◌, ◌<◌, ◌≡◌, ◌≢◌, refl, sym, ap, subst, ◌∙◌, inl, inr, ◌⊎◌, true, false, Option, none,
  some, [], ◌∷◌, ltb, leb, ◌==◌, if◌then◌else◌, arith, Bool-cases, Option-cases,
}
use kensv.Prelude.Table.{Table, lookup, assign, erase, lookup-assign, lookup-erase}
use kensv.Host.{
  Namespace, ProcessInfo, Host, max_fd, minus_one, insert_fd, next_fd, create_file_descriptor,
  remove_file_descriptor,
}

-- The descriptors are in ascending order, from `least` on.
abbrev pub Ascending : ℕ → Table Namespace → Type 0
Ascending least [] = Unit
Ascending least ((k, v) ∷ m) = (least ≤ k) × Ascending (k + 1) m

lookup-below :
    (m : Table Namespace) (least fd : ℕ) → Ascending least m → fd < least → lookup fd m ≡ none
unfolding lookup
lookup-below [] least fd up h = refl
lookup-below ((k, v) ∷ m) least fd (above, up) h =
    ground (arith, lookup-below m (k + 1) fd up (omega arith))

Ascending-weaken : (m : Table Namespace) (a b : ℕ) → a ≤ b → Ascending b m → Ascending a m
Ascending-weaken [] a b h up = tt
Ascending-weaken ((k, v) ∷ m) a b h (above, up) = (omega arith, up)

-- The least descriptor from `least` on that is not in use.
abbrev IsNext : ℕ → Table Namespace → ℕ → Type 0
IsNext least m n =
    (least ≤ n) × (lookup n m ≡ none) × ((fd : ℕ) → least ≤ fd → fd < n → lookup fd m ≢ none)

next_fd-IsNext :
    (m : Table Namespace) (least : ℕ) → Ascending least m → IsNext least m (next_fd least m)
unfolding next_fd lookup
next_fd-IsNext [] least up = (omega arith, refl, λ fd h below. absurd (omega arith))
next_fd-IsNext ((k, v) ∷ m) least (above, up) = elim (Bool-cases (k == least)) [
  | inl same ↦
      let at_least : k ≡ least = ground arith in
      let (le, free, used) =
        next_fd-IsNext m (least + 1) (subst (λ j. Ascending (j + 1) m) at_least up) in
      let not_here : (k == next_fd (least + 1) m) ≡ false = ground arith in
      let on : next_fd least ((k, v) ∷ m) ≡ next_fd (least + 1) m = rw same refl in
      subst (IsNext least ((k, v) ∷ m)) (sym on) (
        omega (arith, le),
        rw not_here free,
        λ fd h below. elim (Bool-cases (k == fd)) [
          | inl own ↦ rw own (λ e. cc)
          | inr other ↦ rw other (used fd (ground arith) below)
        ],
      )
  | inr differs ↦
      let here : next_fd least ((k, v) ∷ m) ≡ least = rw differs refl in
      subst (IsNext least ((k, v) ∷ m)) (sym here) (
        omega arith,
        rw differs (lookup-below m (k + 1) least up (ground arith)),
        λ fd h below. absurd (omega arith),
      )
]

lookup-insert_fd :
    (m : Table Namespace) (fd : ℕ) (n : Namespace) (k : ℕ)
    → lookup fd m ≡ none
    → lookup k (insert_fd fd n m) ≡ (if fd == k then some n else lookup k m)
unfolding lookup insert_fd
lookup-insert_fd [] fd n k free = refl
lookup-insert_fd ((j, v) ∷ m) fd n k free = ground (arith, lookup-insert_fd m fd n k)

insert_fd-Ascending :
    (m : Table Namespace) (least fd : ℕ) (n : Namespace)
    → Ascending least m
    → least ≤ fd
    → Ascending least (insert_fd fd n m)
unfolding insert_fd
insert_fd-Ascending [] least fd n up h = (h, tt)
insert_fd-Ascending ((k, v) ∷ m) least fd n (above, up) h = elim (Bool-cases (ltb fd k)) [
  | inl before ↦ rw before (h, (ground arith, up))
  | inr not_before ↦ elim (Bool-cases (fd == k)) [
    | inl same ↦ rw (not_before, same) (above, up)
    | inr differs ↦
        rw (not_before, differs) (above, insert_fd-Ascending m (k + 1) fd n up (ground arith))
  ]
]

erase-Ascending :
    (m : Table Namespace) (least fd : ℕ) → Ascending least m → Ascending least (erase fd m)
unfolding erase
erase-Ascending [] least fd up = tt
erase-Ascending ((k, v) ∷ m) least fd (above, up) = elim (Bool-cases (k == fd)) [
  | inl same ↦
      rw same (
        Ascending-weaken (erase fd m) least (k + 1) (omega arith) (erase-Ascending m (k + 1) fd up))
  | inr differs ↦ rw differs (above, erase-Ascending m (k + 1) fd up)
]

-- The namespace of a descriptor of a process, as `messageReceived` looks it up.
unfoldable pub namespace_of : (pid fd : ℕ) → Host → Option Namespace
namespace_of pid fd h = elim (lookup pid h.process_info_map) [
  | none ↦ none
  | some info ↦ lookup fd info.fd_to_domain
]

-- The descriptors of every process are in order, from 3 on.
abbrev pub Ordered : Host → Type 0
Ordered h =
    (pid : ℕ) (info : ProcessInfo)
    → lookup pid h.process_info_map ≡ some info
    → Ascending 3 info.fd_to_domain

namespace_of-unknown :
    (pid k : ℕ) (h : Host) → lookup pid h.process_info_map ≡ none → namespace_of pid k h ≡ none
unfolding namespace_of
namespace_of-unknown pid k h unknown = rw (unknown, namespace_of) refl

namespace_of-known :
    (pid k : ℕ) (h : Host) (info : ProcessInfo)
    → lookup pid h.process_info_map ≡ some info
    → namespace_of pid k h ≡ lookup k info.fd_to_domain
unfolding namespace_of
namespace_of-known pid k h info known = rw (known, namespace_of) refl

-- A new descriptor of the process: the least from 3 on that was not in use. It is in the namespace, all
-- other descriptors of all processes are as they were.
pub record Creates (domain protocol pid : ℕ) (h h' : Host) (fd : ℕ) : Type 0 where
  pub from_three : 3 ≤ fd
  pub below_limit : fd < max_fd
  pub was_free : namespace_of pid fd h ≡ none
  pub least : (k : ℕ) → 3 ≤ k → k < fd → namespace_of pid k h ≢ none
  pub own :
      (k : ℕ)
      → namespace_of pid k h' ≡ (
          if fd == k
          then some (record { domain = domain; protocol = protocol })
          else namespace_of pid k h)
  pub others : (p k : ℕ) → p ≢ pid → namespace_of p k h' ≡ namespace_of p k h
  pub ordered : Ordered h'

with_fds : (pid : ℕ) → ProcessInfo → Table Namespace → Host → Host
with_fds pid info m h = record h {
  process_info_map = assign pid (record info { fd_to_domain = m }) h.process_info_map;
}

namespace_of-with_fds :
    (pid p fd : ℕ) (info : ProcessInfo) (m : Table Namespace) (h : Host)
    → namespace_of p fd (with_fds pid info m h)
      ≡ (if pid == p then lookup fd m else namespace_of p fd h)
unfolding namespace_of with_fds
namespace_of-with_fds pid p fd info m h = elim (Bool-cases (pid == p)) [
  | inl same ↦
      let found = lookup-assign pid p (record info { fd_to_domain = m }) h.process_info_map in
      rw (found, namespace_of, same) refl
  | inr differs ↦
      let found = lookup-assign pid p (record info { fd_to_domain = m }) h.process_info_map in
      rw (found, namespace_of, differs) refl
]

with_fds-Ordered :
    (pid : ℕ) (info : ProcessInfo) (m : Table Namespace) (h : Host)
    → Ascending 3 m
    → Ordered h
    → Ordered (with_fds pid info m h)
unfolding with_fds
with_fds-Ordered pid info m h up ordered p i e = elim (Bool-cases (pid == p)) [
  | inl same ↦
      let found = lookup-assign pid p (record info { fd_to_domain = m }) h.process_info_map in
      let both : some (record info { fd_to_domain = m }) ≡ some i = rw same at (sym found ∙ e) in
      let is_it : record info { fd_to_domain = m } ≡ i = cc in
      subst (λ j. Ascending 3 j.fd_to_domain) is_it up
  | inr differs ↦
      let found = lookup-assign pid p (record info { fd_to_domain = m }) h.process_info_map in
      ordered p i (rw differs at (sym found ∙ e))
]

-- With descriptors in order, `createFileDescriptor` of a registered process gives out the least
-- descriptor from 3 on that is not in use, with the namespace, and changes no other descriptor; or
-- it returns -1, without a change, if all from 3 on below 65536 are in use. The descriptors stay
-- in order.
pub create_file_descriptor-Creates :
    (domain protocol pid : ℕ) (h : Host) (info : ProcessInfo)
    → lookup pid h.process_info_map ≡ some info
    → Ordered h
    → ((create_file_descriptor domain protocol pid h ≡ some (h, minus_one))
        × ((k : ℕ) → 3 ≤ k → k < max_fd → namespace_of pid k h ≢ none))
      ⊎ ((h' : Host) × (fd : ℕ) × (create_file_descriptor domain protocol pid h ≡ some (h', fd))
          × Creates domain protocol pid h h' fd)
unfolding create_file_descriptor namespace_of with_fds
create_file_descriptor-Creates domain protocol pid h info known ordered =
    let up = ordered pid info known in
    let (from_three, free, used) = next_fd-IsNext info.fd_to_domain 3 up in
    let fd : ℕ = next_fd 3 info.fd_to_domain in
    let n : Namespace = record { domain = domain; protocol = protocol } in
    let self : (pid == pid) ≡ true = ground arith in
    elim (Bool-cases (leb max_fd fd)) [
      | inl full ↦ inl (
        rw (known, create_file_descriptor, full) refl,
        λ k h below. rw (known, namespace_of) (used k h (ground arith)),
      )
      | inr room ↦ inr (
        with_fds pid info (insert_fd fd n info.fd_to_domain) h,
        fd,
        rw (known, create_file_descriptor, room) refl,
        record {
          from_three = from_three;
          below_limit = ground arith;
          was_free = rw (known, namespace_of) free;
          least = λ k h below. rw (known, namespace_of) (used k h below);
          own = λ k.
              namespace_of-with_fds pid pid k info _ h
              ∙ rw self (
                  lookup-insert_fd info.fd_to_domain fd n k free
                  ∙ ap (λ o. if fd == k then some n else o)
                      (sym (namespace_of-known pid k h info known)));
          others = λ p k ne. namespace_of-with_fds pid p k info _ h ∙ ground arith;
          ordered =
              with_fds-Ordered pid info _ h
                (insert_fd-Ascending info.fd_to_domain 3 fd n up from_three) ordered;
        },
      )
    ]

-- The descriptor of the process is free, if both exist, and no other one is changed.
pub Removes : (pid fd : ℕ) (h h' : Host) → Type 0
Removes pid fd h h' =
    ((p k : ℕ)
      → namespace_of p k h'
        ≡ (if pid == p then (if fd == k then none else namespace_of p k h) else namespace_of p k h))
    × Ordered h'

-- With descriptors in order, `removeFileDescriptor` frees the descriptor of the process, if both
-- exist, and no other one; the descriptors stay in order.
pub remove_file_descriptor-Removes :
    (pid fd : ℕ) (h : Host) → Ordered h → Removes pid fd h (remove_file_descriptor pid fd h)
unfolding remove_file_descriptor Removes
remove_file_descriptor-Removes pid fd h ordered =
    elim (Option-cases (lookup pid h.process_info_map)) [
      | inl unknown ↦
          let same : remove_file_descriptor pid fd h ≡ h =
            rw (unknown, remove_file_descriptor) refl in
          subst (Removes pid fd h) (sym same) (
            λ p k. elim (Bool-cases (pid == p)) [
              | inl own ↦
                  let it_is : pid ≡ p = ground arith in
                  let gone : namespace_of p k h ≡ none =
                    subst (λ p. namespace_of p k h ≡ none) it_is
                      (namespace_of-unknown pid k h unknown) in
                  ground arith
              | inr other ↦ rw other refl
            ],
            ordered,
          )
      | inr (info, known) ↦
          let removed : remove_file_descriptor pid fd h
              ≡ with_fds pid info (erase fd info.fd_to_domain) h =
            unfold with_fds in rw (known, remove_file_descriptor) refl in
          subst (Removes pid fd h) (sym removed) (
            λ p k. namespace_of-with_fds pid p k info _ h ∙ elim (Bool-cases (pid == p)) [
              | inl own ↦
                  let it_is : pid ≡ p = ground arith in
                  let there : namespace_of p k h ≡ lookup k info.fd_to_domain =
                    subst (λ p. namespace_of p k h ≡ lookup k info.fd_to_domain) it_is
                      (namespace_of-known pid k h info known) in
                  rw (own, there) (lookup-erase fd k info.fd_to_domain)
              | inr other ↦ rw other refl
            ],
            with_fds-Ordered pid info _ h
                (erase-Ascending info.fd_to_domain 3 fd (ordered pid info known)) ordered,
          )
    ]

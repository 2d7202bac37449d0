-- ===== src/Host/Issue.antt =====
-- An application issues a system call, and waits for the answer.
use mathlib.Core.Option.{some-injective}
use kensv.Prelude.{
  ℕ, ◌≡◌, refl, sym, ap, subst, ◌∙◌, inl, inr, Bool, true, false, some, ◌==◌, if◌then◌else◌, arith,
  Bool-cases,
}
use kensv.Prelude.Table.{lookup, assign, lookup-assign}
use kensv.Runnable.{waiting}
use kensv.Syscall.{SystemCallParameter}
use kensv.Host.{ProcessInfo, Host, minus_one}
use kensv.Host.Calls.{Consistent, Waits, assigned}
use kensv.Host.Syscalls.{Issued, returned, waits, e_syscall}

same_issued :
    (pid : ℕ) (param : SystemCallParameter) (b : Bool) (k h' : Host)
    → (if b then waits k pid param else returned minus_one) ≡ waits h' pid param
    → k ≡ h'
same_issued pid param true k h' e = ap host_of e
  where
    host_of : Issued → Host
    host_of (returned r) = k
    host_of (waits h' pid param) = h'
same_issued pid param false k h' e = cc

-- An application that issues a call waits: with consistent tables, its process has the result -1 until
-- the answer, the tables stay consistent, and if the processes of all pending calls wait, each for one call, this stays so.
pub e_syscall_keeps :
    (pid : ℕ) (info : ProcessInfo) (param : SystemCallParameter) (h h' : Host)
    → Consistent h
    → lookup pid h.process_info_map ≡ some info
    → e_syscall pid info param h ≡ waits h' pid param
    → (lookup pid h'.process_info_map
        ≡ some (record info { syscall_ret = minus_one; state = waiting }))
      × Consistent h'
      × (Waits h → Waits h')
unfolding e_syscall
e_syscall_keeps pid info param h h' c known issued =
    let info' : ProcessInfo = record info { syscall_ret = minus_one; state = waiting } in
    let m = assign pid info' h.process_info_map in
    let self : (pid == pid) ≡ true = ground arith in
    let (own_pid, there) = assigned pid info info' h.process_info_map known refl c.own_pid in
    let it : record h { process_info_map = m } ≡ h' =
      same_issued pid param h.running (record h { process_info_map = m }) h' issued in
    subst
      (λ h'. (lookup pid h'.process_info_map ≡ some info') × Consistent h' × (Waits h → Waits h'))
      it
      (
        lookup-assign pid pid info' h.process_info_map ∙ rw self refl,
        record { own_pid = own_pid; caller = λ u p e. there p (c.caller u p e) },
        λ w. record {
          caller_waits = λ u p i e found. elim (Bool-cases (pid == p)) [
            | inl same ↦
                let both : some info' ≡ some i =
                  rw same at (sym (lookup-assign pid p info' h.process_info_map) ∙ found) in
                ap (λ i. i.state) (sym (some-injective _ _ both))
            | inr other ↦
                w.caller_waits u p i e
                  (rw other at (sym (lookup-assign pid p info' h.process_info_map) ∙ found))
          ];
          one_call = w.one_call;
        },
      )

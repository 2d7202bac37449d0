-- ===== src/System/Budget.antt =====
-- Code that is paid for: what a module may send, out of a budget, and that a call of such code
-- returns.
use kensv.Prelude.{
  ℕ, ◌+◌, ◌-◌, ◌%◌, ◌≤◌, ◌<◌, ◌≡◌, refl, subst, ap, inl, inr, Bool, true, Option, none, some, List,
  ◌==◌, Bool-cases, Option-cases, arith,
}
use kensv.Prelude.Table.{Table, lookup, assign, lookup-assign}
use kensv.Prelude.Tally.{tally, tally-assign_new, tally-assign_same, le-tally}
use kensv.Prelude.NumSet.{member, insert, remove, member-insert}
use kensv.System.Invariant.{Inv, send-Inv, cancel-Inv}
use kensv.System.{
  System, TimerContainer, word, Prog, done, fail, send, cancel, clock, add_runnable, del_runnable,
  allocate_uuid, enqueue, send_message, cancel_message, exec, call, is_registered,
}
use kensv.System.Hands.{
  Returns, Returns-bind, Hand, idle, delivering, waking, extra, ready_count, ready_count-insert,
  ready_count-remove,
}

module _ {ℓ} {M : Type ℓ} (known : List ℕ) (weight : M → ℕ) where
  -- The code fails nowhere, sends between known modules only, and each message takes its weight and
  -- one more from the budget, each runnable that it makes ready one. What is left meets `Q` with the
  -- result.
  abbrev pub Pays : {R : Type ℓ} → (ℕ → R → Type 0) → ℕ → Prog M R → Type 0
  Pays Q b (done r) = Q b r
  Pays Q b fail = ⊥
  Pays Q b (send from to m after k) =
      (1 + weight m ≤ b)
      × (member from known ≡ true)
      × (member to known ≡ true)
      × ((u : ℕ) → Pays Q (b - (1 + weight m)) (k u))
  Pays Q b (cancel id k) = (f : Bool) → Pays Q b (k f)
  Pays Q b (clock k) = (t : ℕ) → Pays Q b (k t)
  Pays Q b (add_runnable r k) = (1 ≤ b) × Pays Q (b - 1) k
  Pays Q b (del_runnable r k) = Pays Q b k

  abbrev pub load : TimerContainer M → ℕ
  load c = 1 + weight c.message

  abbrev pub burden : TimerContainer M → ℕ
  burden c = weight c.message

  abbrev pub burden_of : Option (TimerContainer M) → Option ℕ
  burden_of none = none
  burden_of (some c) = some (weight c.message)

  abbrev pub KnownEnds : Option (TimerContainer M) → Type 0
  KnownEnds none = Unit
  KnownEnds (some c) = (member c.from known ≡ true) × (member c.to known ≡ true)

  abbrev pub Holding : Hand → System M → Type 0
  Holding idle s = Unit
  Holding (waking r) s = Unit
  Holding (delivering id held) s = burden_of (lookup id s.active_timer) ≡ some held

  -- A state with a budget `b` left: at most `n` deliveries and wakings are to come, and the uuids last.
  pub record Funded (hand : Hand) (n last b : ℕ) (s : System M) : Type 0 where
    pub inv : Inv s
    pub modules_are : s.registered_module ≡ known
    pub ends : (id : ℕ) → KnownEnds (lookup id s.active_timer)
    pub fresh : (id : ℕ) → member id s.active_uuid ≡ true → id ≤ s.current_uuid
    pub holding : Holding hand s
    pub steps : b + tally load s.active_timer + ready_count hand s.runnable_ready ≤ n
    pub uuids : s.current_uuid + b + tally burden s.active_timer ≤ last + extra hand

  Holding-ready :
      (hand : Hand) (rs : List ℕ) (s : System M)
      → Holding hand s
      → Holding hand (record s { runnable_ready = rs })
  Holding-ready idle rs s h = h
  Holding-ready (delivering id held) rs s h = h
  Holding-ready (waking r) rs s h = h

  pub burden_of-some :
      (o : Option (TimerContainer M)) (held : ℕ)
      → burden_of o ≡ some held
      → (c : TimerContainer M) × (o ≡ some c) × (weight c.message ≡ held)
  burden_of-some none held h = cc
  burden_of-some (some c) held h = (c, refl, ground arith)

  extra-le :
      (hand : Hand) (s : System M) → Holding hand s → extra hand ≤ tally burden s.active_timer
  extra-le idle s h = omega arith
  extra-le (waking r) s h = omega arith
  extra-le (delivering id held) s h =
      let (c, found, same) = burden_of-some (lookup id s.active_timer) held h in
      omega (arith, le-tally burden id c s.active_timer found)

  Holding-assign :
      (hand : Hand) (id : ℕ) (c : TimerContainer M) (s s' : System M)
      → s'.active_timer ≡ assign id c s.active_timer
      → ((held : ℕ) → burden_of (lookup id s.active_timer) ≡ some held → weight c.message ≡ held)
      → Holding hand s
      → Holding hand s'
  Holding-assign idle id c s s' e same h = tt
  Holding-assign (waking r) id c s s' e same h = tt
  Holding-assign (delivering k held) id c s s' e same h =
      rw (e, lookup-assign)
        (elim (Bool-cases (id == k)) [
          | inl it ↦
              let at_id : burden_of (lookup id s.active_timer) ≡ some held =
                subst (λ k. burden_of (lookup k s.active_timer) ≡ some held) (ground arith) h in
              rw it (ap some (same held at_id))
          | inr other ↦ rw other h
        ])

  ends_assign :
      (id : ℕ) (c : TimerContainer M) (m : Table (TimerContainer M))
      → KnownEnds (some c)
      → ((k : ℕ) → KnownEnds (lookup k m))
      → (k : ℕ) → KnownEnds (lookup k (assign id c m))
  ends_assign id c m here there k =
      rw lookup-assign
        (elim (Bool-cases (id == k)) [ inl it ↦ rw it here | inr other ↦ rw other (there k) ])

  module _ (hand : Hand) (n last : ℕ) (room : last < word) where
    send-Funded :
        (from to : ℕ) (m : M) (after b : ℕ) (s : System M)
        → 1 + weight m ≤ b
        → member from known ≡ true
        → member to known ≡ true
        → Funded hand n last b s
        → Returns
            (λ r. Funded hand n last (b - (1 + weight m)) r.0)
            (send_message from to m after s)
    unfolding send_message allocate_uuid enqueue
    send-Funded from to m after b s afford known_from known_to v =
        let held = extra-le hand s v.holding in
        let next : (s.current_uuid + 1) % word ≡ s.current_uuid + 1 = omega (arith, v.uuids) in
        elim (Bool-cases (member (s.current_uuid + 1) s.active_uuid)) [
          | inl taken ↦ absurd (omega (arith, v.fresh _ taken))
          | inr new ↦
              let gone : lookup (s.current_uuid + 1) s.active_timer ≡ none =
                ground (arith, v.inv.tied (s.current_uuid + 1)) in
              let sent = send-Inv from to m after s v.inv in
              rw (next, new)
                (record {
                  inv = rw (send_message, next, new) at sent;
                  modules_are = v.modules_are;
                  ends =
                      ends_assign (s.current_uuid + 1) _ s.active_timer (known_from, known_to)
                        v.ends;
                  fresh = λ id. rw member-insert (ground (arith, v.fresh id));
                  holding =
                      Holding-assign hand (s.current_uuid + 1) _ s _ refl
                        (λ held h. let no : none ≡ some held = rw gone at h in cc) v.holding;
                  steps = rw (tally-assign_new load _ _ _ gone) (omega (arith, v.steps));
                  uuids = rw (tally-assign_new burden _ _ _ gone) (omega (arith, v.uuids));
                })
        ]

    cancel-Funded :
        (id b : ℕ) (s : System M)
        → Funded hand n last b s
        → Funded hand n last b (cancel_message id s).0
    unfolding cancel_message
    cancel-Funded id b s v =
        let inv = cancel-Inv id s v.inv in
        elim (Option-cases (lookup id s.active_timer)) [
          | inl gone ↦ rw (gone, cancel_message) v
          | inr (c, found) ↦
              rw (found, cancel_message)
                (record {
                  inv = rw (found, cancel_message) at inv;
                  modules_are = v.modules_are;
                  ends =
                      ends_assign id (record c { canceled = true }) s.active_timer
                        (rw found at (v.ends id)) v.ends;
                  fresh = v.fresh;
                  holding =
                      Holding-assign hand id (record c { canceled = true }) s
                        (record s {
                          active_timer = assign id (record c { canceled = true }) s.active_timer;
                        })
                        refl (λ held h. ground (arith, (rw found at h))) v.holding;
                  steps =
                      rw
                        (tally-assign_same load id (record c { canceled = true }) c s.active_timer
                          found refl)
                        v.steps;
                  uuids =
                      rw
                        (tally-assign_same burden id (record c { canceled = true }) c s.active_timer
                          found refl)
                        v.uuids;
                })
        ]

    ready-Funded :
        (b b' : ℕ) (rs : List ℕ) (s : System M)
        → b' + ready_count hand rs ≤ b + ready_count hand s.runnable_ready
        → b' ≤ b
        → Funded hand n last b s
        → Funded hand n last b' (record s { runnable_ready = rs })
    ready-Funded b b' rs s fewer less v = record {
      inv = record { sorted = v.inv.sorted; live = v.inv.live; tied = v.inv.tied };
      modules_are = v.modules_are;
      ends = v.ends;
      fresh = v.fresh;
      holding = Holding-ready hand rs s v.holding;
      steps = omega (arith, v.steps);
      uuids = omega (arith, v.uuids);
    }

    -- The code runs to its end, with a result that its budget pays for.
    pub exec-Funded :
        {R : Type ℓ} (Q : ℕ → R → Type 0) (p : Prog M R) (b : ℕ) (s : System M)
        → Pays Q b p
        → Funded hand n last b s
        → Returns (λ r. (left : ℕ) × Funded hand n last left r.0 × Q left r.1) (exec p s)
    unfolding exec
    exec-Funded Q (done r) b s p v = (b, v, p)
    exec-Funded Q fail b s p v = p
    exec-Funded Q (send from to m after k) b s (afford, known_from, known_to, p) v =
        Returns-bind (λ r. Funded hand n last (b - (1 + weight m)) r.0)
          (λ r. (left : ℕ) × Funded hand n last left r.0 × Q left r.1)
          (send_message from to m after s) _
          (send-Funded from to m after b s afford known_from known_to v)
          (λ (s', u) v'. exec-Funded Q (k u) (b - (1 + weight m)) s' (p u) v')
    exec-Funded Q (cancel id k) b s p v =
        exec-Funded Q (k (cancel_message id s).1) b (cancel_message id s).0 (p _)
          (cancel-Funded id b s v)
    exec-Funded Q (clock k) b s p v = exec-Funded Q (k s.current_time) b s (p _) v
    exec-Funded Q (add_runnable r k) b s (afford, p) v = exec-Funded Q k (b - 1) _ p (
        ready-Funded b (b - 1) (insert r s.runnable_ready) s
          (omega (arith, ready_count-insert hand r s.runnable_ready)) (omega arith) v)
    exec-Funded Q (del_runnable r k) b s p v = exec-Funded Q k b _ p (
        ready-Funded b b (remove r s.runnable_ready) s
          (omega (arith, ready_count-remove hand r s.runnable_ready)) (omega arith) v)

    pub call-Funded :
        {R : Type ℓ} (Q : ℕ → R → Type 0) (id : ℕ) (p : Prog M R) (b : ℕ) (s : System M)
        → member id known ≡ true
        → Pays Q b p
        → Funded hand n last b s
        → Returns (λ r. (left : ℕ) × Funded hand n last left r.0 × Q left r.1) (call id p s)
    unfolding call is_registered
    call-Funded Q id p b s there pays v =
        let registered : member id s.registered_module ≡ true = rw v.modules_are there in
        rw registered (exec-Funded Q p b s pays v)

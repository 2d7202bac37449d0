-- ===== src/System/Steps.antt =====
-- Each call of the core does what its clients can rely on.
use kensv.Prelude.{
  ℕ, ◌+◌, ◌%◌, ◌≤◌, ◌<◌, ◌≡◌, ◌≢◌, refl, sym, subst, ◌∙◌, inl, inr, ◌⊎◌, true, false, none, some,
  List, ◌∷◌, All, All-map₂, ◌==◌, if◌then◌else◌, Bool-cases, Option-cases, arith,
}
use kensv.Prelude.Table.{lookup, assign, lookup-assign, lookup-erase}
use kensv.Prelude.NumSet.{member, insert, member-insert, member-remove}
use kensv.System.Queue.{Entry, Earlier, IsSorted}
use kensv.System.Rules.{next_event-eq-some}
use kensv.System.Invariant.{
  is_some, Inv, Live, Carries, send-Inv, cancel-Inv, pop-InHand, retire-Inv, head_live,
}
use kensv.System.Spec.{
  Op, sends, cancels, takes, Answer, cancelled, nothing_due, taken, step, view, NoneDue, Allows,
  allows_send, allows_cancel, allows_wait, allows_take,
}
use kensv.System.{
  System, TimerContainer, word, ok, allocate_uuid, enqueue, send_message, cancel_message, past,
  next_event, retire,
}
use kensv.System.Valid.{queued, queued-push, entry_of, stopped, Valid}

module _ {ℓ} {M : Type ℓ} where
  -- The step returns an answer that is allowed, in a valid state whose last uuid is at most `last`.
  abbrev pub Good : Op M → (last : ℕ) → System M → Type ℓ
  Good op last s =
      (s' : System M) × (a : Answer M) × (step op s ≡ ok (s', a))
      × Allows op a (view s) (view s')
      × Valid s'
      × (s'.current_uuid ≤ last)

  -- What is sent while the uuids last.
  unfoldable pub sent_as : (from to : ℕ) → M → (after : ℕ) → System M → TimerContainer M
  sent_as from to m after s = record {
    from = from;
    to = to;
    canceled = false;
    wakeup = (s.current_time + after) % word;
    message = m;
    uuid = s.current_uuid + 1;
  }

  pub send_message-fresh :
      (from to : ℕ) (m : M) (after : ℕ) (s : System M)
      → Valid s
      → s.current_uuid + 1 < word
      → send_message from to m after s
        ≡ ok (
          enqueue (sent_as from to m after s) (record s {
            current_uuid = s.current_uuid + 1;
            active_uuid = insert (s.current_uuid + 1) s.active_uuid;
          }),
          s.current_uuid + 1,
        )
  unfolding send_message allocate_uuid sent_as
  send_message-fresh from to m after s v room =
      let next : (s.current_uuid + 1) % word ≡ s.current_uuid + 1 = omega arith in
      let new : member (s.current_uuid + 1) s.active_uuid ≡ false =
        elim (Bool-cases (member (s.current_uuid + 1) s.active_uuid)) [
          | inl used ↦ absurd (omega (arith, v.fresh (s.current_uuid + 1) used))
          | inr free ↦ free
        ] in
      rw (next, new) refl

  pub send-Good :
      (from to : ℕ) (m : M) (after : ℕ) (s : System M)
      → Valid s
      → s.current_uuid + 1 < word
      → Good (sends from to m after) (s.current_uuid + 1) s
  unfolding step enqueue sent_as
  send-Good from to m after s v room =
      let run = send_message-fresh from to m after s v room in
      (
        _,
        _,
        rw (run, step) refl,
        allows_send (
          λ k there. omega (arith, v.fresh k (v.inv.tied k ∙ there)),
          λ k. lookup-assign (s.current_uuid + 1) k _ s.active_timer,
          refl,
        ),
        record {
          inv = rw run at (send-Inv from to m after s v.inv);
          queued_all = λ id there.
              rw queued-push
                (queued_in id (Bool-cases (s.current_uuid + 1 == id)) (rw lookup-assign at there));
          fresh = λ id used.
              ground (
                arith,
                v.fresh id,
                sym (member-insert (s.current_uuid + 1) id s.active_uuid) ∙ used,
              );
        },
        omega arith,
      )
    where
      queued_in :
          (id : ℕ)
          → ((s.current_uuid + 1 == id) ≡ true) ⊎ ((s.current_uuid + 1 == id) ≡ false)
          → is_some (
              if s.current_uuid + 1 == id
              then some (sent_as from to m after s)
              else lookup id s.active_timer)
            ≡ true
          → (if s.current_uuid + 1 == id then true else queued id s.timer_queue) ≡ true
      queued_in id (inl it) h = rw it refl
      queued_in id (inr other) h = rw other (v.queued_all id (rw other at h))

  cancel_message-none :
      (id : ℕ) (s : System M) → lookup id s.active_timer ≡ none → cancel_message id s ≡ (s, false)
  unfolding cancel_message
  cancel_message-none id s gone = rw (gone, cancel_message) refl

  pub cancel_message-some :
      (id : ℕ) (c : TimerContainer M) (s : System M)
      → lookup id s.active_timer ≡ some c
      → cancel_message id s ≡ (
        record s { active_timer = assign id (record c { canceled = true }) s.active_timer },
        true,
      )
  unfolding cancel_message
  cancel_message-some id c s found = rw (found, cancel_message) refl

  pub cancel-Good : (id : ℕ) (s : System M) → Valid s → Good (cancels id) s.current_uuid s
  unfolding step
  cancel-Good id s v = elim (Option-cases (lookup id s.active_timer)) [
    | inl gone ↦ (
      s,
      cancelled false,
      rw (cancel_message-none id s gone, step) refl,
      allows_cancel (rw gone refl, λ k. rw gone (unchanged k gone (Bool-cases (id == k))), refl),
      v,
      omega arith,
    )
    | inr (c, found) ↦ (
      record s { active_timer = assign id (record c { canceled = true }) s.active_timer },
      cancelled true,
      rw (cancel_message-some id c s found, step) refl,
      allows_cancel (rw found refl, λ k. rw found (lookup-assign id k _ s.active_timer), refl),
      record {
        inv = subst (λ r. Inv r.0) (cancel_message-some id c s found) (cancel-Inv id s v.inv);
        queued_all = λ k there.
            v.queued_all k (still k c found (Bool-cases (id == k)) (rw lookup-assign at there));
        fresh = v.fresh;
      },
      omega arith,
    )
  ]
    where
      unchanged :
          (k : ℕ)
          → lookup id s.active_timer ≡ none
          → ((id == k) ≡ true) ⊎ ((id == k) ≡ false)
          → lookup k s.active_timer ≡ (if id == k then none else lookup k s.active_timer)
      unchanged k gone (inl it) =
          rw it (subst (λ k. lookup k s.active_timer ≡ none) (ground arith) gone)
      unchanged k gone (inr other) = rw other refl

      still :
          (k : ℕ) (c : TimerContainer M)
          → lookup id s.active_timer ≡ some c
          → ((id == k) ≡ true) ⊎ ((id == k) ≡ false)
          → is_some
              (if id == k then some (record c { canceled = true }) else lookup k s.active_timer)
            ≡ true
          → is_some (lookup k s.active_timer) ≡ true
      still k c found (inl it) h =
          let same : id ≡ k = ground arith in
          subst (λ k. is_some (lookup k s.active_timer) ≡ true) same (rw found refl)
      still k c found (inr other) h = rw other at h

  none-NoneDue :
      (till : ℕ) (s : System M)
      → Valid s
      → next_event till s.timer_queue ≡ none
      → NoneDue till (view s)
  none-NoneDue till s v stop k c found =
      let (e, own, (late, live)) =
        entry_of (λ e. ((0 < till) × (till < e.wakeup)) × Live s e) k s.timer_queue
          (v.queued_all k (rw found refl))
          (All-map₂ _ (Live s) _ s.timer_queue (λ e late live. (late, live))
            (stopped till s.timer_queue stop v.inv.sorted) v.inv.live) in
      let carries : Carries e (some c) = rw (own, found) at live in
      (late.0, omega (arith, late.1, carries.1))

  -- The head of the queue comes before all other pending messages.
  head_first :
      (e : Entry) (rest : List Entry) (c : TimerContainer M) (s : System M)
      → Valid s
      → s.timer_queue ≡ e ∷ rest
      → Carries e (some c)
      → (k : ℕ) (d : TimerContainer M) → lookup k s.active_timer ≡ some d
      → k ≢ c.uuid
      → Earlier
          (record { wakeup = c.wakeup; uuid = c.uuid })
          (record { wakeup = d.wakeup; uuid = k })
  head_first e rest c s v queue own k d found other =
      let sorted = subst IsSorted queue v.inv.sorted in
      let live = subst (All (Live s)) queue v.inv.live in
      let (x, its, (order, l)) =
        entry_of (λ x. ((x.uuid ≡ e.uuid) ⊎ Earlier e x) × Live s x) k (e ∷ rest)
          (subst (λ es. queued k es ≡ true) queue (v.queued_all k (rw found refl)))
          (
            (inl refl, live.0),
            All-map₂ _ (Live s) _ rest (λ x later l. (inr later, l)) sorted.0 live.1,
          ) in
      let carries : Carries x (some d) = rw (its, found) at l in ground arith

  taken-Valid :
      (e : Entry) (rest : List Entry) (s : System M)
      → Valid s
      → s.timer_queue ≡ e ∷ rest
      → Valid (retire e.uuid (record s { current_time = e.wakeup; timer_queue = rest }))
  unfolding retire queued
  taken-Valid e rest s v queue = record {
    inv =
        retire-Inv e.uuid (record s { current_time = e.wakeup; timer_queue = rest })
          (pop-InHand e rest s queue v.inv);
    queued_all = λ k there.
        left k (Bool-cases (e.uuid == k)) (rw lookup-erase at there)
          (λ active. subst (λ es. queued k es ≡ true) queue (v.queued_all k active));
    fresh = λ k used. ground (arith, v.fresh k, sym (member-remove e.uuid k s.active_uuid) ∙ used);
  }
    where
      left :
          (k : ℕ)
          → ((e.uuid == k) ≡ true) ⊎ ((e.uuid == k) ≡ false)
          → is_some (if e.uuid == k then none else lookup k s.active_timer) ≡ true
          → (is_some (lookup k s.active_timer) ≡ true
              → (if e.uuid == k then true else queued k rest) ≡ true)
          → queued k rest ≡ true
      left k (inl it) h there = let gone : false ≡ true = rw it at h in cc
      left k (inr other) h there = rw other at (there (rw other at h))

  pub take-Good : (till : ℕ) (s : System M) → Valid s → Good (takes till) s.current_uuid s
  unfolding step retire past
  take-Good till s v = elim (Option-cases (next_event till s.timer_queue)) [
    | inl stop ↦ (
      s,
      nothing_due,
      rw (stop, step) refl,
      allows_wait (none-NoneDue till s v stop),
      v,
      omega arith,
    )
    | inr ((e, rest), next) ↦
        let (queue, due) = next_event-eq-some till s.timer_queue next in
        elim (Option-cases (lookup e.uuid s.active_timer)) [
          | inl gone ↦ absurd (head_live e rest s queue v.inv gone)
          | inr (c, found) ↦
              let carries : Carries e (some c) =
                rw found at (subst (All (Live s)) queue v.inv.live).0 in
              (
                retire e.uuid (record s { current_time = e.wakeup; timer_queue = rest }),
                taken c,
                rw (next, found, step) refl,
                allows_take (
                  subst (λ u. lookup u s.active_timer ≡ some c) (sym carries.0) found,
                  ground arith,
                  head_first e rest c s v queue carries,
                  λ k. rw carries.0 (lookup-erase e.uuid k s.active_timer),
                  sym carries.1,
                ),
                taken-Valid e rest s v queue,
                omega arith,
              )
        ]
  ]

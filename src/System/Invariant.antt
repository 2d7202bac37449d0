-- ===== src/System/Invariant.antt =====
-- The queue, the containers and the uuids of `System` stay consistent, whatever the modules do.
use kensv.Prelude.{
  ℕ, ◌+◌, ◌%◌, ◌≡◌, ◌≢◌, refl, ap, subst, ◌∙◌, inl, inr, Bool, true, false, Option, none, some,
  List, ◌∷◌, All, All-map, All-map₂, if◌then◌else◌, Bool-cases, Option-cases, ◌==◌, arith,
}
use kensv.Prelude.Table.{lookup, assign, lookup-assign, lookup-erase}
use kensv.Prelude.NumSet.{member, member-insert, member-remove}
use kensv.System.Queue.{Entry, Earlier, IsSorted, All-push, push-IsSorted}
use kensv.System.Ensures.{Ensures, Ensures-map, IsKept}
use kensv.System.Rules.{any_delay, deliver-kept, wake_all-kept, run-kept}
use kensv.System.{
  System, TimerContainer, Modules, word, init, enqueue, send_message, cancel_message, retire,
  deliver, run,
}

abbrev pub is_some {ℓ} : {A : Type ℓ} → Option A → Bool
is_some none = false
is_some (some a) = true

-- The pointer leads to a container that carries the pointer's own uuid and time.
abbrev pub Carries {ℓ} : {M : Type ℓ} → Entry → Option (TimerContainer M) → Type 0
Carries e none = ⊥
Carries e (some c) = (c.uuid ≡ e.uuid) × (c.wakeup ≡ e.wakeup)

abbrev pub Live {ℓ} : {M : Type ℓ} → System M → Entry → Type 0
Live s e = Carries e (lookup e.uuid s.active_timer)

-- Deliveries are strictly ordered, pointers are live, and `active_uuid` is the domain of
-- `active_timer`.
pub record Inv {ℓ} {M : Type ℓ} (s : System M) : Type 0 where
  pub sorted : IsSorted s.timer_queue
  pub live : All (Live s) s.timer_queue
  pub tied : (id : ℕ) → member id s.active_uuid ≡ is_some (lookup id s.active_timer)

module _ {ℓ} {M : Type ℓ} where
  pub init-Inv : (modules : List ℕ) → Inv (init {M = M} modules)
  unfolding init member lookup
  init-Inv modules = record { sorted = tt; live = tt; tied = λ id. refl }

  Live-ne :
      (s : System M) (id : ℕ) (e : Entry) → lookup id s.active_timer ≡ none → Live s e → e.uuid ≢ id
  Live-ne s id e h l p = rw (p, h) at l

  Live-assign :
      (s : System M) (id : ℕ) (c : TimerContainer M) (e : Entry)
      → e.uuid ≢ id
      → Live s e
      → Carries e (lookup e.uuid (assign id c s.active_timer))
  Live-assign s id c e ne l = rw lookup-assign (ground arith)

  -- A container whose uuid no other has may join.
  enqueue-Inv :
      (c : TimerContainer M) (s : System M)
      → lookup c.uuid s.active_timer ≡ none
      → IsSorted s.timer_queue
      → All (Live s) s.timer_queue
      → ((id : ℕ)
          → member id s.active_uuid
            ≡ (if c.uuid == id then true else is_some (lookup id s.active_timer)))
      → Inv (enqueue c s)
  unfolding enqueue
  enqueue-Inv c s fresh sorted live tied =
      let others = λ (e : Entry). Live-ne s c.uuid e fresh in
      record {
        sorted = push-IsSorted _ _ (All-map (Live s) _ s.timer_queue others live) sorted;
        live = All-push _ _ s.timer_queue (rw lookup-assign (ground arith)) (
            All-map (Live s) _ s.timer_queue (λ e l. Live-assign s c.uuid c e (others e l) l) live);
        tied = λ id. rw lookup-assign (ground (arith, tied id));
      }

  pub send-Inv :
      (from to : ℕ) (m : M) (after : ℕ) (s : System M)
      → Inv s
      → Ensures (λ r. Inv r.0) (send_message from to m after s)
  unfolding send_message
  send-Inv from to m after s v =
      let candidate : ℕ = (s.current_uuid + 1) % word in
      elim (Bool-cases (member candidate s.active_uuid)) [
        | inl taken ↦ rw taken tt
        | inr new ↦ rw new (
            enqueue-Inv _ _ (ground (arith, v.tied candidate)) v.sorted v.live
              (λ id. rw member-insert (ground (arith, v.tied id))))
      ]

  mark-Inv :
      (id : ℕ) (c : TimerContainer M) (s : System M)
      → lookup id s.active_timer ≡ some c
      → Inv s
      → Inv (record s { active_timer = assign id (record c { canceled = true }) s.active_timer })
  mark-Inv id c s found v = record {
    sorted = v.sorted;
    live = All-map (Live s) _ s.timer_queue (λ e l. rw lookup-assign (ground arith)) v.live;
    tied = λ j. rw lookup-assign (ground (arith, v.tied j));
  }

  pub cancel-Inv : (id : ℕ) (s : System M) → Inv s → Inv (cancel_message id s).0
  unfolding cancel_message
  cancel-Inv id s v = elim (Option-cases (lookup id s.active_timer)) [
    | inl gone ↦ rw (gone, cancel_message) v
    | inr (c, found) ↦ rw (found, cancel_message) (mark-Inv id c s found v)
  ]

-- While a container is being handled it is out of the queue, and its uuid is not given out again.
pub record InHand {ℓ} {M : Type ℓ} (id : ℕ) (s : System M) : Type 0 where
  pub inv : Inv s
  absent : All (λ e. e.uuid ≢ id) s.timer_queue
  held : member id s.active_uuid ≡ true

module _ {ℓ} {M : Type ℓ} (id : ℕ) where
  send-InHand :
      (from to : ℕ) (m : M) (after : ℕ) (s : System M)
      → InHand id s
      → Ensures (λ r. InHand id r.0) (send_message from to m after s)
  unfolding send_message
  send-InHand from to m after s h =
      let candidate : ℕ = (s.current_uuid + 1) % word in
      let sent = send-Inv from to m after s h.inv in
      elim (Bool-cases (member candidate s.active_uuid)) [
        | inl taken ↦ rw taken tt
        | inr new ↦ rw new (record {
          inv = rw new at sent;
          absent = All-push _ _ s.timer_queue (ground (arith, h.held)) h.absent;
          held = rw member-insert (ground (arith, h.held));
        })
      ]

  cancel-InHand : (other : ℕ) (s : System M) → InHand id s → InHand id (cancel_message other s).0
  unfolding cancel_message
  cancel-InHand other s h =
      let inv = cancel-Inv other s h.inv in
      elim (Option-cases (lookup other s.active_timer)) [
        | inl gone ↦ rw (gone, cancel_message) h
        | inr (c, found) ↦
            rw (found, cancel_message)
              (record { inv = rw (found, cancel_message) at inv; absent = h.absent; held = h.held })
      ]

  InHand-kept : IsKept {M = M} (λ _. Unit {0}) (InHand id)
  InHand-kept = record {
    on_send = λ from to m after s _ h. send-InHand from to m after s h;
    on_cancel = cancel-InHand;
    on_ready = λ rs s h. record {
      inv = record { sorted = h.inv.sorted; live = h.inv.live; tied = h.inv.tied };
      absent = h.absent;
      held = h.held;
    };
  }

  pub retire-Inv : (s : System M) → InHand id s → Inv (retire id s)
  unfolding retire
  retire-Inv s h = record {
    sorted = h.inv.sorted;
    live =
        All-map₂ (Live s) (λ e. e.uuid ≢ id) _ s.timer_queue
          (λ e l ne. rw lookup-erase (ground arith)) h.inv.live h.absent;
    tied = λ j. rw (lookup-erase, member-remove) (ground (arith, h.inv.tied j));
  }

pub Inv-kept {ℓ} : {M : Type ℓ} → IsKept {M = M} (λ _. Unit {0}) Inv
Inv-kept = record {
  on_send = λ from to m after s _ h. send-Inv from to m after s h;
  on_cancel = cancel-Inv;
  on_ready = λ rs s h. record { sorted = h.sorted; live = h.live; tied = h.tied };
}

module _ {ℓ} {M : Type ℓ} where
  pub head_live :
      (e : Entry) (rest : List Entry) (s : System M)
      → s.timer_queue ≡ e ∷ rest
      → Inv s
      → lookup e.uuid s.active_timer ≢ none
  head_live e rest s q v gone = subst (Carries e) gone (subst (All (Live s)) q v.live).0

  later_apart :
      (s : System M) (e x : Entry) (c : TimerContainer M)
      → lookup e.uuid s.active_timer ≡ some c
      → c.wakeup ≡ e.wakeup
      → Earlier e x
      → Live s x
      → x.uuid ≢ e.uuid
  later_apart s e x c found at_e before l same =
      let l' : Carries x (some c) =
        subst (Carries x) (ap (λ u. lookup u s.active_timer) same ∙ found) l in
      ground arith

  pub pop-InHand :
      (e : Entry) (rest : List Entry) (s : System M)
      → s.timer_queue ≡ e ∷ rest
      → Inv s
      → InHand e.uuid (record s { current_time = e.wakeup; timer_queue = rest })
  pop-InHand e rest s q v =
      let sorted = subst IsSorted q v.sorted in
      let live = subst (All (Live s)) q v.live in go sorted live (lookup e.uuid s.active_timer) refl
    where
      go :
          IsSorted (e ∷ rest)
          → All (Live s) (e ∷ rest)
          → (o : Option (TimerContainer M)) → lookup e.uuid s.active_timer ≡ o
          → InHand e.uuid (record s { current_time = e.wakeup; timer_queue = rest })
      go sorted live none found = absurd (subst (Carries e) found live.0)
      go sorted live (some c) found = record {
        inv = record { sorted = sorted.1; live = live.1; tied = v.tied };
        absent =
            All-map₂ (Earlier e) (Live s) _ rest
              (λ x. later_apart s e x c found (subst (Carries e) found live.0).1) sorted.0 live.1;
        held = rw (v.tied e.uuid, found);
      }

module _ {ℓ} {M W : Type ℓ} (modules : Modules M W) where
  pub deliver-Inv :
      (e : Entry) (rest : List Entry) (s : System M) (w : W)
      → s.timer_queue ≡ e ∷ rest
      → Inv s
      → Ensures (λ r. Inv r.0) (deliver modules e rest s w)
  deliver-Inv e rest s w q v =
      deliver-kept modules _ _ (InHand-kept e.uuid) (any_delay modules) (λ s. Inv s) e rest s w
        (head_live e rest s q v) (pop-InHand e rest s q v) (λ s' h. retire-Inv e.uuid s' h)

  -- However the modules behave and for any fuel, a run from a well-formed state meets no dangling
  -- pointer of the queue, and if it returns, the queue is strictly ordered by time and uuid, its
  -- pointers are live, and the uuids in use are those of the active containers.
  pub run-Inv :
      (fuel till : ℕ) (s : System M) (w : W)
      → Inv s
      → Ensures (λ r. Inv r.0) (run modules fuel till s w)
  run-Inv fuel till s w v =
      Ensures-map _ _ (run modules fuel till s w) (λ r h. h.0)
        (run-kept modules till (λ s. Inv s) (wake_all-kept modules _ _ Inv-kept (any_delay modules))
          (λ e rest s w q _ v. deliver-Inv e rest s w q v) fuel s w v)

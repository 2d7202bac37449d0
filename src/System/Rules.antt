-- ===== src/System/Rules.antt =====
-- What every call of the core keeps, the handling of a message and the waking of the runnables keep.
use kensv.Prelude.{
  ℕ, ◌≡◌, ◌≢◌, inl, inr, false, Option, none, some, List, [], ◌∷◌, Bool-cases, Option-cases, arith,
}
use kensv.Prelude.Table.{lookup}
use kensv.Prelude.NumSet.{member, remove}
use kensv.Prelude.{zero, suc, if◌then◌else◌}
use kensv.System.Queue.{Entry}
use kensv.System.Ensures.{Ensures, Ensures-bind, Delays, Delays-any, IsKept, exec-kept, call-kept}
use kensv.System.{
  System, TimerContainer, Modules, ok, ◌>>=◌, WakeResult, still_ready, stopped, exec, call,
  dispatch, deliver, retire, wake_one, wake_each, wake_all, past, next_event, run,
}

-- Every message that any of the modules sends has a delay that meets `D`.
pub record ModuleDelays {ℓ} {M W : Type ℓ} (modules : Modules M W) (D : ℕ → Type 0) : Type ℓ where
  pub received : (to from : ℕ) (m : M) (w : W) → Delays D (modules.message_received to from m w)
  pub finished : (id to : ℕ) (m r : M) (w : W) → Delays D (modules.message_finished id to m r w)
  pub cancelled : (id to : ℕ) (m : M) (w : W) → Delays D (modules.message_cancelled id to m w)
  pub woken : (r : ℕ) (w : W) → Delays D (modules.wake r w)

pub any_delay {ℓ} : {M W : Type ℓ} (modules : Modules M W) → ModuleDelays modules (λ _. Unit {0})
any_delay modules = record {
  received = λ to from m w. Delays-any (modules.message_received to from m w);
  finished = λ id to m r w. Delays-any (modules.message_finished id to m r w);
  cancelled = λ id to m w. Delays-any (modules.message_cancelled id to m w);
  woken = λ r w. Delays-any (modules.wake r w);
}

module _ {ℓ} {M W : Type ℓ} (modules : Modules M W) (D : ℕ → Type 0) (P : System M → Type 0)
    (kept : IsKept D P) (delays : ModuleDelays modules D) where
  finish-kept :
      (id to : ℕ) (m r : M) (s : System M) (w : W)
      → P s
      → Ensures (λ x. P x.0) (call id (modules.message_finished id to m r w) s)
  finish-kept id to m r s w h =
      call-kept D P kept id (modules.message_finished id to m r w) s (delays.finished id to m r w) h

  -- The two ways in which the handling of a received message ends.
  reply-kept :
      (from to : ℕ) (m : M) (ret : Option M) (s : System M) (w : W)
      → P s
      → Ensures
          (λ x. P x.0)
          (elim ret [
            | none ↦ call from (modules.message_finished from to m modules.empty_message w) s
            | some r ↦ call from (modules.message_finished from to m r w) s >>= λ (s₂, w₂).
                call to (modules.message_finished to to r modules.empty_message w₂) s₂
          ])
  reply-kept from to m none s w h = finish-kept from to m modules.empty_message s w h
  reply-kept from to m (some r) s w h =
      Ensures-bind (λ x. P x.0) (λ x. P x.0) (call from (modules.message_finished from to m r w) s)
        _ (finish-kept from to m r s w h)
        (λ (s₂, w₂) h₂. finish-kept to to r modules.empty_message s₂ w₂ h₂)

  pub dispatch-kept :
      (c : TimerContainer M) (s : System M) (w : W)
      → P s
      → Ensures (λ x. P x.0) (dispatch modules c s w)
  unfolding dispatch
  dispatch-kept c s w h =
      let received = modules.message_received c.to c.from c.message w in
      let cancelled = modules.message_cancelled c.from c.to c.message w in
      elim (Bool-cases c.canceled) [
        | inl e ↦
            rw e
              (call-kept D P kept c.from cancelled s (delays.cancelled c.from c.to c.message w) h)
        | inr e ↦ rw e (
            Ensures-bind (λ x. P x.0) (λ x. P x.0) (call c.to received s) _
              (call-kept D P kept c.to received s (delays.received c.to c.from c.message w) h)
              (λ (s₁, (w₁, m₁, ret)) h₁. reply-kept c.from c.to m₁ ret s₁ w₁ h₁))
      ]

  pub deliver-kept :
      (Q : System M → Type 0) (e : Entry) (rest : List Entry) (s : System M) (w : W)
      → lookup e.uuid s.active_timer ≢ none
      → P (record s { current_time = e.wakeup; timer_queue = rest })
      → ((s' : System M) → P s' → Q (retire e.uuid s'))
      → Ensures (λ x. Q x.0) (deliver modules e rest s w)
  unfolding deliver
  deliver-kept Q e rest s w live h retired = elim (Option-cases (lookup e.uuid s.active_timer)) [
    | inl gone ↦ absurd (live gone)
    | inr (c, found) ↦
        let t : System M = record s { current_time = e.wakeup; timer_queue = rest } in
        rw (found, deliver)
          (Ensures-bind (λ x. P x.0) (λ x. Q x.0) (dispatch modules c t w) _ (dispatch-kept c t w h)
            (λ (s', w') h'. retired s' h'))
  ]

  pub wake_one-kept :
      (r : ℕ) (s : System M) (w : W) → P s → Ensures (λ x. P x.0) (wake_one modules r s w)
  unfolding wake_one
  wake_one-kept r s w h =
      Ensures-bind (λ x. P x.0) (λ x. P x.0) (exec (modules.wake r w) s) _
        (exec-kept D P kept (modules.wake r w) s (delays.woken r w) h)
        (λ (s', (w', next)) h'. settle s' w' next h')
    where
      settle :
          (s' : System M) (w' : W) (next : WakeResult)
          → P s'
          → Ensures {A = System M × W}
              (λ x. P x.0)
              (elim next [
                | still_ready ↦ ok (s', w')
                | stopped ↦ ok (record s' { runnable_ready = remove r s'.runnable_ready }, w')
              ])
      settle s' w' still_ready h' = h'
      settle s' w' stopped h' = kept.on_ready (remove r s'.runnable_ready) s' h'

  pub wake_each-kept :
      (rs : List ℕ) (s : System M) (w : W) → P s → Ensures (λ x. P x.0) (wake_each modules rs s w)
  unfolding wake_each
  wake_each-kept [] s w h = h
  wake_each-kept (r ∷ rs) s w h =
      Ensures-bind (λ x. P x.0) (λ x. P x.0)
        (if member r s.runnable_ready then wake_one modules r s w else ok (s, w)) _
        (elim (Bool-cases (member r s.runnable_ready)) [
          | inl e ↦ rw e (wake_one-kept r s w h)
          | inr e ↦ rw e h
        ])
        (λ (s', w') h'. wake_each-kept rs s' w' h')

  pub wake_all-kept :
      (fuel : ℕ) (s : System M) (w : W) → P s → Ensures (λ x. P x.0) (wake_all modules fuel s w)
  unfolding wake_all
  wake_all-kept zero s w h = tt
  wake_all-kept (suc fuel) s w h = go s.runnable_ready (wake_all-kept fuel)
    where
      go :
          (ready : List ℕ)
          → ((s' : System M) (w' : W) → P s' → Ensures (λ x. P x.0) (wake_all modules fuel s' w'))
          → Ensures {A = System M × W}
              (λ x. P x.0)
              (elim ready [
                | [] ↦ ok (s, w)
                | r ∷ rs ↦
                    wake_each modules (r ∷ rs) s w >>= λ (s', w'). wake_all modules fuel s' w'
              ])
      go [] rec = h
      go (r ∷ rs) rec =
          Ensures-bind (λ x. P x.0) (λ x. P x.0) (wake_each modules (r ∷ rs) s w) _
            (wake_each-kept (r ∷ rs) s w h) (λ (s', w') h'. rec s' w' h')

pub next_event-eq-some :
    (till : ℕ) (queue : List Entry) {e : Entry} {rest : List Entry}
    → next_event till queue ≡ some (e, rest)
    → (queue ≡ e ∷ rest) × (past till e ≡ false)
unfolding next_event
next_event-eq-some till [] h = cc
next_event-eq-some till (x ∷ xs) h = ground arith

-- What the waking and each delivery keep, the whole run keeps, and it ends where nothing is due.
module _ {ℓ} {M W : Type ℓ} (modules : Modules M W) (till : ℕ) (P : System M → Type 0)
    (wakes : (fuel : ℕ) (s : System M) (w : W)
      → P s
      → Ensures (λ x. P x.0) (wake_all modules fuel s w))
    (delivers : (e : Entry) (rest : List Entry) (s : System M) (w : W)
      → s.timer_queue ≡ e ∷ rest
      → past till e ≡ false
      → P s
      → Ensures (λ x. P x.0) (deliver modules e rest s w)) where
  abbrev pub Stopped : System M → Type 0
  Stopped s = next_event till s.timer_queue ≡ none

  pub run-kept :
      (fuel : ℕ) (s : System M) (w : W)
      → P s
      → Ensures (λ x. P x.0 × Stopped x.0) (run modules fuel till s w)
  unfolding run
  run-kept zero s w h = tt
  run-kept (suc fuel) s w h =
      Ensures-bind (λ x. P x.0) (λ x. P x.0 × Stopped x.0) (wake_all modules fuel s w) _
        (wakes fuel s w h) (λ (s₁, w₁) h₁. go s₁ w₁ h₁ (run-kept fuel))
    where
      go :
          (s₁ : System M) (w₁ : W)
          → P s₁
          → ((s' : System M) (w' : W)
              → P s'
              → Ensures (λ x. P x.0 × Stopped x.0) (run modules fuel till s' w'))
          → Ensures {A = System M × W}
              (λ x. P x.0 × Stopped x.0)
              (elim (next_event till s₁.timer_queue) [
                | none ↦ ok (s₁, w₁)
                | some (e, rest) ↦
                    deliver modules e rest s₁ w₁ >>= λ (s₂, w₂). run modules fuel till s₂ w₂
              ])
      go s₁ w₁ h₁ rec = elim (Option-cases (next_event till s₁.timer_queue)) [
        | inl stop ↦ rw stop (h₁, stop)
        | inr ((e, rest), next) ↦
            let (queue, due) = next_event-eq-some till s₁.timer_queue next in
            rw next (
              Ensures-bind (λ x. P x.0) (λ x. P x.0 × Stopped x.0) (deliver modules e rest s₁ w₁) _
                (delivers e rest s₁ w₁ queue due h₁) (λ (s₂, w₂) h₂. rec s₂ w₂ h₂))
      ]

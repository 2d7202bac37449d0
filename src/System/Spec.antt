-- ===== src/System/Spec.antt =====
-- What a client can rely on: pending messages by their uuid, taken in the order of their time, and of
-- their sending within one time.
use kensv.Prelude.{
  ℕ, ◌+◌, ◌%◌, ◌≤◌, ◌<◌, ◌≡◌, ◌≢◌, ◌⊎◌, ◌==◌, Bool, true, false, Option, none, some, List, [], ◌∷◌,
  if◌then◌else◌,
}
use kensv.Prelude.Table.{lookup}
use kensv.System.Queue.{Earlier}
use kensv.System.Invariant.{is_some}
use kensv.System.{
  System, TimerContainer, word, Result, ok, fault, dangling, ◌>>=◌, send_message, cancel_message,
  next_event, retire,
}

pub data Op {ℓ} (M : Type ℓ) : Type ℓ where
  sends : (from to : ℕ) → M → (after : ℕ) → Op M
  cancels : ℕ → Op M
  takes : (till : ℕ) → Op M

pub data Answer {ℓ} (M : Type ℓ) : Type ℓ where
  sent : ℕ → Answer M
  cancelled : Bool → Answer M
  nothing_due : Answer M
  taken : TimerContainer M → Answer M

module _ {ℓ} {M : Type ℓ} where
  -- The call of the system; taking is a round of `run`, with a module that does nothing.
  unfoldable pub step : Op M → System M → Result (System M × Answer M)
  step (sends from to m after) s = send_message from to m after s >>= λ (s', u). ok (s', sent u)
  step (cancels id) s = let (s', b) = cancel_message id s in ok (s', cancelled b)
  step (takes till) s = elim (next_event till s.timer_queue) [
    | none ↦ ok (s, nothing_due)
    | some (e, rest) ↦ elim (lookup e.uuid s.active_timer) [
      | none ↦ fault dangling
      | some c ↦
          ok (retire e.uuid (record s { current_time = e.wakeup; timer_queue = rest }), taken c)
    ]
  ]

  unfoldable pub run_ops : List (Op M) → System M → Result (System M × List (Answer M))
  unfolding step
  run_ops [] s = ok (s, [])
  run_ops (op ∷ ops) s = do (s₁, a) ← step op s; (s₂, as') ← run_ops ops s₁; ok (s₂, a ∷ as')

-- The abstract state: the clock, and the pending messages, by uuid.
pub record Pending {ℓ} (M : Type ℓ) : Type ℓ where
  pub now : ℕ
  pub message_of : ℕ → Option (TimerContainer M)

abbrev pub view {ℓ} : {M : Type ℓ} → System M → Pending M
view s = record { now = s.current_time; message_of = λ id. lookup id s.active_timer }

module _ {ℓ} {M : Type ℓ} where
  -- Nothing but the message of `id` changes, which becomes `o`.
  abbrev pub Updates : ℕ → Option (TimerContainer M) → Pending M → Pending M → Type ℓ
  Updates id o v v' = (k : ℕ) → v'.message_of k ≡ (if id == k then o else v.message_of k)

  abbrev pub marked : Option (TimerContainer M) → Option (TimerContainer M)
  marked none = none
  marked (some c) = some (record c { canceled = true })

  -- A new message gets a uuid above all pending ones, and the time after the delay.
  abbrev pub Sends : (from to : ℕ) → M → (after u : ℕ) → Pending M → Pending M → Type ℓ
  Sends from to m after u v v' =
      ((k : ℕ) → is_some (v.message_of k) ≡ true → k < u)
      × Updates u
          (some (record {
            from = from;
            to = to;
            canceled = false;
            wakeup = (v.now + after) % word;
            message = m;
            uuid = u;
          }))
          v v'
      × (v'.now ≡ v.now)

  -- No pending message is due by `till`, where 0 stands for no end.
  abbrev pub NoneDue : ℕ → Pending M → Type ℓ
  NoneDue till v =
      (k : ℕ) (c : TimerContainer M) → v.message_of k ≡ some c → (0 < till) × (till < c.wakeup)

  -- The message is pending and due, comes before all others, and is not pending any more; the clock
  -- is at its time.
  abbrev pub Takes : ℕ → TimerContainer M → Pending M → Pending M → Type ℓ
  Takes till c v v' =
      (v.message_of c.uuid ≡ some c)
      × ((till ≡ 0) ⊎ (c.wakeup ≤ till))
      × ((k : ℕ) (d : TimerContainer M)
          → v.message_of k ≡ some d
          → k ≢ c.uuid
          → Earlier (record { wakeup = c.wakeup; uuid = c.uuid })
              (record { wakeup = d.wakeup; uuid = k }))
      × Updates c.uuid none v v'
      × (v'.now ≡ c.wakeup)

  -- A mark for cancellation, if the message is pending.
  abbrev pub Cancels : ℕ → Bool → Pending M → Pending M → Type ℓ
  Cancels id b v v' =
      (b ≡ is_some (v.message_of id))
      × Updates id (marked (v.message_of id)) v v'
      × (v'.now ≡ v.now)

  -- What each call may answer and do.
  pub data Allows : Op M → Answer M → Pending M → Pending M → Type ℓ where
    allows_send :
        {from to : ℕ} {m : M} {after u : ℕ} {v v' : Pending M}
        → Sends from to m after u v v'
        → Allows (sends from to m after) (sent u) v v'
    allows_cancel :
        {id : ℕ} {b : Bool} {v v' : Pending M}
        → Cancels id b v v'
        → Allows (cancels id) (cancelled b) v v'
    allows_wait : {till : ℕ} {v : Pending M} → NoneDue till v → Allows (takes till) nothing_due v v
    allows_take :
        {till : ℕ} {c : TimerContainer M} {v v' : Pending M}
        → Takes till c v v'
        → Allows (takes till) (taken c) v v'

  -- The same calls and answers, on the abstract state.
  pub data Replays : List (Op M) → List (Answer M) → Pending M → Pending M → Type ℓ where
    ends : {v : Pending M} → Replays [] [] v v
    follows :
        {op : Op M} {ops : List (Op M)} {a : Answer M} {as' : List (Answer M)} {v v₁ v₂ : Pending M}
        → Allows op a v v₁
        → Replays ops as' v₁ v₂
        → Replays (op ∷ ops) (a ∷ as') v v₂

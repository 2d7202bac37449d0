-- ===== src/Host/Timers.antt =====
-- A timer of a host in the core.
use Prim.Native.String.{String}
use kensv.Prelude.{
  ℕ, ◌+◌, ◌%◌, ◌<◌, ◌≡◌, ◌==◌, refl, Bool, true, false, Option, some, if◌then◌else◌, arith,
}
use kensv.Prelude.Table.{lookup, assign, lookup-assign}
use kensv.System.{System, TimerContainer, word, ok, done, exec, enqueue}
use kensv.Prelude.NumSet.{insert}
use kensv.System.Steps.{sent_as, send_message-fresh, cancel_message-some}
use kensv.System.Valid.{Valid}
use kensv.Host.Messages.{Message, timer, add_timer, cancel_timer, send_message_self}

-- What `addTimer` puts into the core, and that `cancelTimer` with the key that it returns marks it.
pub add_timer-cancel_timer :
    (self : ℕ) (name : String) (payload after : ℕ) (s : System Message)
    → Valid s
    → s.current_uuid + 1 < word
    → (s' : System Message) × (exec
          (add_timer self name payload after (λ key. cancel_timer self key (done key)))
          s
        ≡ ok (s', s.current_uuid + 1))
      × ((k : ℕ)
          → lookup k s'.active_timer ≡ (
              if s.current_uuid + 1 == k
              then some (record {
                from = self;
                to = self;
                canceled = true;
                wakeup = (s.current_time + after) % word;
                message = timer name payload;
                uuid = s.current_uuid + 1;
              })
              else lookup k s.active_timer))
unfolding exec add_timer cancel_timer send_message_self sent_as enqueue
add_timer-cancel_timer self name payload after s v room =
    let u : ℕ = s.current_uuid + 1 in
    let c : TimerContainer Message = sent_as self self (timer name payload) after s in
    let s₁ : System Message =
      enqueue c (record s { current_uuid = u; active_uuid = insert u s.active_uuid }) in
    let there : lookup u s₁.active_timer ≡ some c = rw lookup-assign (ground arith) in
    (
      record s₁ { active_timer = assign u (record c { canceled = true }) s₁.active_timer },
      rw (send_message-fresh self self (timer name payload) after s v room)
          (rw (cancel_message-some u c s₁ there) refl),
      λ k. rw (lookup-assign, lookup-assign) (again (u == k) _ _ _),
    )
  where
    again :
        (b : Bool) (x y z : Option (TimerContainer Message))
        → (if b then x else (if b then y else z)) ≡ (if b then x else z)
    again true x y z = refl
    again false x y z = refl

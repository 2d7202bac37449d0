-- ===== src/System/Time.antt =====
-- The virtual clock of `System`: `run(till)` never sets it back nor beyond `till`, and leaves no
-- message that was due.
use kensv.Prelude.{
  ℕ, ◌+◌, ◌%◌, ◌≤◌, ◌<◌, ◌≡◌, subst, inl, inr, false, none, List, [], ◌∷◌, All, All-map, Bool-cases,
  Option-cases, arith,
}
use kensv.Prelude.Table.{lookup}
use kensv.Prelude.NumSet.{member}
use kensv.System.Queue.{Entry, Earlier, IsSorted, All-push}
use kensv.System.Ensures.{Ensures, Ensures-map, Ensures-both, IsKept}
use kensv.System.Rules.{ModuleDelays, any_delay, deliver-kept, wake_all-kept, run-kept}
use kensv.System.Invariant.{Inv, head_live, deliver-Inv, Inv-kept}
use kensv.System.{
  System, Modules, word, send_message, cancel_message, retire, deliver, wake_all, past, next_event,
  run,
}

-- The clock stands between `start` and `till`, and nothing that is queued is overdue.
pub record OnTime {ℓ} {M : Type ℓ} (start till : ℕ) (s : System M) : Type 0 where
  pub begun : start ≤ s.current_time
  pub within : s.current_time ≤ till
  pub due : All (λ e. s.current_time ≤ e.wakeup) s.timer_queue

-- A delay that does not take the clock past the largest `uint64_t` before `till`.
abbrev pub Fits : ℕ → ℕ → Type 0
Fits till after = till + after < word

module _ {ℓ} {M : Type ℓ} (start till : ℕ) where
  send-OnTime :
      (from to : ℕ) (m : M) (after : ℕ) (s : System M)
      → Fits till after
      → OnTime start till s
      → Ensures (λ r. OnTime start till r.0) (send_message from to m after s)
  unfolding send_message
  send-OnTime from to m after s fits h =
      elim (Bool-cases (member ((s.current_uuid + 1) % word) s.active_uuid)) [
        | inl taken ↦ rw taken tt
        | inr new ↦ rw new (record {
          begun = h.begun;
          within = h.within;
          due = All-push (λ e. s.current_time ≤ e.wakeup) _ s.timer_queue (omega arith) h.due;
        })
      ]

  cancel-OnTime :
      (id : ℕ) (s : System M) → OnTime start till s → OnTime start till (cancel_message id s).0
  unfolding cancel_message
  cancel-OnTime id s h = elim (Option-cases (lookup id s.active_timer)) [
    | inl gone ↦ rw (gone, cancel_message) h
    | inr (c, found) ↦
        rw (found, cancel_message) (record { begun = h.begun; within = h.within; due = h.due })
  ]

  OnTime-kept : IsKept {M = M} (Fits till) (OnTime start till)
  OnTime-kept = record {
    on_send = send-OnTime;
    on_cancel = cancel-OnTime;
    on_ready = λ rs s h. record { begun = h.begun; within = h.within; due = h.due };
  }

Earlier→le : (e x : Entry) → Earlier e x → e.wakeup ≤ x.wakeup
Earlier→le e x h = ground arith

module _ {ℓ} {M W : Type ℓ} (modules : Modules M W) (start till : ℕ)
    (delays : ModuleDelays modules (Fits till)) where
  deliver-OnTime :
      (e : Entry) (rest : List Entry) (s : System M) (w : W)
      → s.timer_queue ≡ e ∷ rest
      → e.wakeup ≤ till
      → Inv s
      → OnTime start till s
      → Ensures (λ r. OnTime start till r.0) (deliver modules e rest s w)
  unfolding retire
  deliver-OnTime e rest s w q upto v h =
      let sorted = subst IsSorted q v.sorted in
      let due = subst (All (λ x. s.current_time ≤ x.wakeup)) q h.due in
      deliver-kept modules _ _ (OnTime-kept start till) delays (OnTime start till) e rest s w
        (head_live e rest s q v)
        (record {
          begun = omega (arith, due.0, h.begun);
          within = upto;
          due = All-map (Earlier e) _ rest (Earlier→le e) sorted.0;
        })
        (λ s' h'. record { begun = h'.begun; within = h'.within; due = h'.due })

  past→le : (e : Entry) → 0 < till → past till e ≡ false → e.wakeup ≤ till
  unfolding past
  past→le e set h = ground arith

  nothing_due :
      (queue : List Entry)
      → 0 < till
      → IsSorted queue
      → next_event till queue ≡ none
      → All (λ e. till < e.wakeup) queue
  unfolding next_event past
  nothing_due [] set sorted stop = tt
  nothing_due (e ∷ rest) set sorted stop =
      let late : till < e.wakeup = ground arith in
      (late, All-map (Earlier e) _ rest (λ x h. ground (arith, Earlier→le e x h)) sorted.0)

  -- A run to a time `till` other than 0, of modules whose delays do not take the clock past 2 ^
  -- 64, from a state that is well formed and on time: no pointer of the queue dangles, and if the
  -- run returns, the clock stands between `start` and `till`, no queued message is overdue, and
  -- every queued message is later than `till`. A failed assertion, a message to an unknown module
  -- and the end of the fuel are left open.
  pub run-OnTime :
      (fuel : ℕ) (s : System M) (w : W)
      → 0 < till
      → Inv s
      → OnTime start till s
      → Ensures
          (λ r. OnTime start till r.0 × All (λ e. till < e.wakeup) r.0.timer_queue)
          (run modules fuel till s w)
  run-OnTime fuel s w set v h =
      Ensures-map _ _ (run modules fuel till s w)
        (λ r ((inv, time), stop). (time, nothing_due r.0.timer_queue set inv.sorted stop))
        (run-kept modules till (λ s. Inv s × OnTime start till s)
          (λ fuel s w (v, h).
            Ensures-both _ _ (wake_all modules fuel s w)
              (wake_all-kept modules _ _ Inv-kept (any_delay modules) fuel s w v)
              (wake_all-kept modules _ _ (OnTime-kept start till) delays fuel s w h))
          (λ e rest s w q next (v, h).
            Ensures-both _ _ (deliver modules e rest s w) (deliver-Inv modules e rest s w q v)
              (deliver-OnTime e rest s w q (past→le e set next) v h))
          fuel s w (v, h))

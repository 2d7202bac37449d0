-- ===== src/System/Returns.antt =====
-- Runs that return: modules that send only finitely often end without an error.
use kensv.Prelude.{
  ℕ, zero, suc, ◌+◌, ◌≤◌, ◌<◌, ◌≡◌, refl, ap, inl, inr, true, none, some, List, [], ◌∷◌, All,
  length, if◌then◌else◌, Bool-cases, Option-cases, arith,
}
use kensv.Prelude.Table.{lookup}
use kensv.Prelude.Tally.{le-tally}
use kensv.Prelude.NumSet.{member, remove, length-remove-lt}
use kensv.System.Queue.{Entry}
use kensv.System.Ensures.{Ensures}
use kensv.System.Rules.{ModuleDelays, next_event-eq-some}
use kensv.System.Invariant.{head_live}
use kensv.System.Deliveries.{Pay, Ready, deliver-Ready}
use kensv.System.Time.{OnTime, Fits, run-OnTime}
use kensv.System.Budget.{load, Funded, exec-Funded}
use kensv.System.Hands.{Returns, Returns-map, Returns-bind, idle, waking}
use kensv.System.{
  System, Modules, word, Result, ok, fault, out_of_fuel, ◌>>=◌, exec, WakeResult, still_ready,
  stopped, deliver, wake_one, wake_each, wake_all, next_event, run,
}

module _ {ℓ} {M W : Type ℓ} (modules : Modules M W) (known : List ℕ) (weight : M → ℕ)
    (potential : W → ℕ) (pay : Pay modules known weight potential) (last : ℕ)
    (room : last < word) where
  abbrev Now : ℕ → System M × W → Type 0
  Now n x = Ready modules known weight potential pay last room n x

  wake_one-Ready :
      (n r : ℕ) (s : System M) (w : W)
      → member r s.runnable_ready ≡ true
      → Now (suc n) (s, w)
      → Returns (Now n) (wake_one modules r s w)
  unfolding wake_one
  wake_one-Ready n r s w there v =
      let fewer = length-remove-lt r s.runnable_ready there in
      let taken : Funded known weight (waking r) n last (potential w) s = record {
        inv = v.inv;
        modules_are = v.modules_are;
        ends = v.ends;
        fresh = v.fresh;
        holding = tt;
        steps = omega (arith, v.steps);
        uuids = v.uuids;
      } in
      Returns-bind _ (Now n) (exec (modules.wake r w) s) _
        (exec-Funded known weight (waking r) n last room
          (λ b x. (x.1 ≡ stopped) × (potential x.0 ≤ b)) (modules.wake r w) (potential w) s
          (pay.woken r w) taken)
        (λ (s', (w', next)) (left, v', (stops, enough)). settle s' w' next left v' stops enough)
    where
      settle :
          (s' : System M) (w' : W) (next : WakeResult) (left : ℕ)
          → Funded known weight (waking r) n last left s'
          → next ≡ stopped
          → potential w' ≤ left
          → Returns {A = System M × W} (Now n) (elim next [
            | still_ready ↦ ok (s', w')
            | stopped ↦ ok (record s' { runnable_ready = remove r s'.runnable_ready }, w')
          ])
      settle s' w' still_ready left v' stops enough = cc
      settle s' w' stopped left v' stops enough = record {
        inv = record { sorted = v'.inv.sorted; live = v'.inv.live; tied = v'.inv.tied };
        modules_are = v'.modules_are;
        ends = v'.ends;
        fresh = v'.fresh;
        holding = tt;
        steps = omega (arith, v'.steps);
        uuids = omega (arith, v'.uuids);
      }

  more : (n k : ℕ) (x : System M × W) → n ≤ k → Now n x → Now k x
  more n k (s, w) le v = record {
    inv = v.inv;
    modules_are = v.modules_are;
    ends = v.ends;
    fresh = v.fresh;
    holding = tt;
    steps = omega (arith, v.steps);
    uuids = v.uuids;
  }

  -- One round that finds its runnable ready uses up one waking at least.
  wake_if-Ready :
      (n r : ℕ) (s : System M) (w : W)
      → Now n (s, w)
      → Returns (Now n) (if member r s.runnable_ready then wake_one modules r s w else ok (s, w))
  wake_if-Ready zero r s w v = elim (Bool-cases (member r s.runnable_ready)) [
    | inl there ↦ absurd (omega (arith, v.steps, length-remove-lt r s.runnable_ready there))
    | inr gone ↦ rw gone v
  ]
  wake_if-Ready (suc n) r s w v = elim (Bool-cases (member r s.runnable_ready)) [
    | inl there ↦ rw there (
        Returns-map (Now n) (Now (suc n)) (wake_one modules r s w)
          (λ x v'. more n (suc n) x (omega arith) v') (wake_one-Ready n r s w there v))
    | inr gone ↦ rw gone v
  ]

  wake_each-Ready :
      (n : ℕ) (rs : List ℕ) (s : System M) (w : W)
      → Now n (s, w)
      → Returns (Now n) (wake_each modules rs s w)
  unfolding wake_each
  wake_each-Ready n [] s w v = v
  wake_each-Ready n (r ∷ rs) s w v =
      Returns-bind (Now n) (Now n)
        (if member r s.runnable_ready then wake_one modules r s w else ok (s, w)) _
        (wake_if-Ready n r s w v) (λ (s', w') v'. wake_each-Ready n rs s' w' v')

  wake_all-Ready :
      (fuel n : ℕ) (s : System M) (w : W)
      → n < fuel
      → Now n (s, w)
      → Returns (Now n) (wake_all modules fuel s w)
  unfolding wake_all wake_each
  wake_all-Ready zero n s w h v = absurd (omega arith)
  wake_all-Ready (suc fuel) n s w h v = go s.runnable_ready n refl h v (wake_all-Ready fuel)
    where
      go :
          (ready : List ℕ) (n : ℕ)
          → s.runnable_ready ≡ ready
          → n < suc fuel
          → Now n (s, w)
          → ((n : ℕ) (s' : System M) (w' : W)
              → n < fuel
              → Now n (s', w')
              → Returns (Now n) (wake_all modules fuel s' w'))
          → Returns {A = System M × W} (Now n) (elim ready [
            | [] ↦ ok (s, w)
            | r ∷ rs ↦ wake_each modules (r ∷ rs) s w >>= λ (s', w'). wake_all modules fuel s' w'
          ])
      go [] n e h v rec = v
      go (r ∷ rs) zero e h v rec = absurd (omega (arith, v.steps, ap length e))
      go (r ∷ rs) (suc n) e h v rec =
          let there : member r s.runnable_ready ≡ true = rw e (unfold member in ground arith) in
          Returns-bind (Now n) (Now (suc n)) (wake_each modules (r ∷ rs) s w) _
            (rw there (
              Returns-bind (Now n) (Now n) (wake_one modules r s w) _
                (wake_one-Ready n r s w there v) (λ (s', w') v'. wake_each-Ready n rs s' w' v')))
            (λ (s', w') v'.
              Returns-map (Now n) (Now (suc n)) (wake_all modules fuel s' w')
                (λ x v''. more n (suc n) x (omega arith) v'') (rec n s' w' (omega arith) v'))

  delivered :
      (fuel n till : ℕ) (e : Entry) (rest : List Entry) (s : System M) (w : W)
      → s.timer_queue ≡ e ∷ rest
      → n + 1 < suc fuel
      → Now n (s, w)
      → ((n : ℕ) (s' : System M) (w' : W)
          → n + 1 < fuel
          → Now n (s', w')
          → Returns (Now n) (run modules fuel till s' w'))
      → Returns (Now n) (deliver modules e rest s w >>= λ (s₂, w₂). run modules fuel till s₂ w₂)
  delivered fuel zero till e rest s w q h v rec =
      elim (Option-cases (lookup e.uuid s.active_timer)) [
        | inl gone ↦ absurd (head_live e rest s q v.inv gone)
        | inr (c, found) ↦
            absurd
              (omega (arith, v.steps, le-tally (load known weight) e.uuid c s.active_timer found))
      ]
  delivered fuel (suc n) till e rest s w q h v rec =
      Returns-bind (Now n) (Now (suc n)) (deliver modules e rest s w) _
        (deliver-Ready modules known weight potential pay last room n e rest s w q v)
        (λ (s₂, w₂) v₂.
          Returns-map (Now n) (Now (suc n)) (run modules fuel till s₂ w₂)
            (λ x v'. more n (suc n) x (omega arith) v') (rec n s₂ w₂ (omega arith) v₂))

  run-Ready :
      (fuel n till : ℕ) (s : System M) (w : W)
      → n + 1 < fuel
      → Now n (s, w)
      → Returns (Now n) (run modules fuel till s w)
  unfolding run
  run-Ready zero n till s w h v = absurd (omega arith)
  run-Ready (suc fuel) n till s w h v =
      Returns-bind (Now n) (Now n) (wake_all modules fuel s w) _
        (wake_all-Ready fuel n s w (omega arith) v)
        (λ (s₁, w₁) v₁. go n s₁ w₁ h v₁ (run-Ready fuel))
    where
      go :
          (n : ℕ) (s₁ : System M) (w₁ : W)
          → n + 1 < suc fuel
          → Now n (s₁, w₁)
          → ((n till : ℕ) (s' : System M) (w' : W)
              → n + 1 < fuel
              → Now n (s', w')
              → Returns (Now n) (run modules fuel till s' w'))
          → Returns {A = System M × W} (Now n) (elim (next_event till s₁.timer_queue) [
            | none ↦ ok (s₁, w₁)
            | some (e, rest) ↦
                deliver modules e rest s₁ w₁ >>= λ (s₂, w₂). run modules fuel till s₂ w₂
          ])
      go n s₁ w₁ h v₁ rec = elim (Option-cases (next_event till s₁.timer_queue)) [
        | inl stop ↦ rw stop v₁
        | inr ((e, rest), next) ↦
            let (queue, due) = next_event-eq-some till s₁.timer_queue next in
            rw next (delivered fuel n till e rest s₁ w₁ queue h v₁ (λ n. rec n till))
      ]

both {ℓ} :
    {A : Type ℓ} (P Q : A → Type 0) (m : Result A)
    → Returns P m
    → Ensures Q m
    → (a : A) × (m ≡ ok a) × P a × Q a
both P Q (ok a) h k = (a, refl, h, k)
both P Q (fault e) h k = absurd h
both P Q out_of_fuel h k = absurd h

-- Modules that pay for what they send, with delays that do not take the clock past 2 ^ 64: a run to
-- a time `till` other than 0 from a state that is on time, in which at most `n` deliveries and
-- wakings are to come and the uuids last, returns without an error on any fuel above `n + 1`. The
-- clock then stands between `start` and `till`, and every queued message is later than `till`.
pub run_returns {ℓ} :
    {M W : Type ℓ} (modules : Modules M W) (known : List ℕ) (weight : M → ℕ) (potential : W → ℕ)
    (start till last n fuel : ℕ) (s : System M) (w : W)
    → Pay modules known weight potential
    → ModuleDelays modules (Fits till)
    → last < word
    → 0 < till
    → n + 1 < fuel
    → Funded known weight idle n last (potential w) s
    → OnTime start till s
    → (x : System M × W) × (run modules fuel till s w ≡ ok x)
      × (start ≤ x.0.current_time)
      × (x.0.current_time ≤ till)
      × All (λ e. till < e.wakeup) x.0.timer_queue
run_returns modules known weight potential start till last n fuel s w pay delays room set enough v
      time =
    let (x, returns, funded, (on_time, none_due)) =
      both _ _ (run modules fuel till s w)
        (run-Ready modules known weight potential pay last room fuel n till s w enough v)
        (run-OnTime modules start till delays fuel s w set v.inv time) in
    (x, returns, on_time.begun, on_time.within, none_due)

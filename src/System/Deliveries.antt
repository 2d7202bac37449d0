-- ===== src/System/Deliveries.antt =====
-- Modules whose messages have a finite weight, and whose state has a finite potential: the delivery of
-- a message to them ends, and uses up one of the deliveries that are to come.
use kensv.Prelude.{
  ℕ, suc, ◌+◌, ◌≤◌, ◌<◌, ◌≡◌, refl, inl, inr, true, Option, none, some, List, ◌∷◌, ◌==◌,
  if◌then◌else◌, Bool-cases, Option-cases, arith,
}
use kensv.Prelude.Table.{lookup, lookup-erase}
use kensv.Prelude.Tally.{tally-erase}
use kensv.Prelude.NumSet.{member, member-remove}
use kensv.System.Queue.{Entry}
use kensv.System.Invariant.{Inv, head_live, pop-InHand, deliver-Inv}
use kensv.System.Budget.{burden_of-some, Pays, load, burden, KnownEnds, Funded, call-Funded}
use kensv.System.Hands.{Returns, Returns-map, Returns-apply, Returns-bind, Hand, idle, delivering}
use kensv.System.{
  System, TimerContainer, Modules, word, ◌>>=◌, Prog, stopped, retire, call, dispatch, deliver,
}

-- Modules that, when they are called for known modules, pay for what they send: the weight of a message pays for what its receiver sends,
-- and the potential of the state for the rest. A runnable that was woken is not ready any more.
pub record Pay {ℓ} {M W : Type ℓ} (modules : Modules M W) (known : List ℕ) (weight : M → ℕ)
    (potential : W → ℕ) : Type ℓ where
  pub received :
      (to from : ℕ) (m : M) (w : W)
      → member to known ≡ true
      → member from known ≡ true
      → Pays known weight
          (λ b (w', m', reply). potential w' ≤ b)
          (potential w + weight m)
          (modules.message_received to from m w)
  pub finished :
      (id to : ℕ) (m r : M) (w : W)
      → member id known ≡ true
      → member to known ≡ true
      → Pays known weight
          (λ b w'. potential w' ≤ b)
          (potential w)
          (modules.message_finished id to m r w)
  pub cancelled :
      (id to : ℕ) (m : M) (w : W)
      → member id known ≡ true
      → member to known ≡ true
      → Pays known weight
          (λ b w'. potential w' ≤ b)
          (potential w + weight m)
          (modules.message_cancelled id to m w)
  pub woken :
      (r : ℕ) (w : W)
      → Pays known weight
          (λ b (w', next). (next ≡ stopped) × (potential w' ≤ b))
          (potential w)
          (modules.wake r w)

module _ {ℓ} {M W : Type ℓ} (modules : Modules M W) (known : List ℕ) (weight : M → ℕ)
    (potential : W → ℕ) (pay : Pay modules known weight potential) (last : ℕ)
    (room : last < word) where
  -- At most `n` deliveries and wakings are to come.
  abbrev pub Ready : ℕ → System M × W → Type 0
  Ready n (s, w) = Funded known weight idle n last (potential w) s

  -- The same, while something is in hand.
  abbrev Handling : Hand → ℕ → System M × W → Type 0
  Handling hand n (s, w) = Funded known weight hand n last (potential w) s

  less :
      (hand : Hand) (n b b' : ℕ) (s : System M)
      → b' ≤ b
      → Funded known weight hand n last b s
      → Funded known weight hand n last b' s
  less hand n b b' s le v = record {
    inv = v.inv;
    modules_are = v.modules_are;
    ends = v.ends;
    fresh = v.fresh;
    holding = v.holding;
    steps = omega (arith, v.steps);
    uuids = omega (arith, v.uuids);
  }

  -- A call of a handler that ends in a state of the modules.
  handled :
      (hand : Hand) (n id b : ℕ) (p : Prog M W) (s : System M)
      → member id known ≡ true
      → Pays known weight (λ b w'. potential w' ≤ b) b p
      → Funded known weight hand n last b s
      → Returns (Handling hand n) (call id p s)
  handled hand n id b p s there pays v =
      Returns-map _ _ (call id p s)
        (λ (s', w') (left, v', enough). less hand n left (potential w') s' enough v')
        (call-Funded known weight hand n last room (λ b w'. potential w' ≤ b) id p b s there pays v)

  dispatch-Handling :
      (id n : ℕ) (c : TimerContainer M) (s : System M) (w : W)
      → (member c.from known ≡ true) × (member c.to known ≡ true)
      → Funded known weight
          (delivering id (weight c.message))
          n
          last
          (potential w + weight c.message)
          s
      → Returns (Handling (delivering id (weight c.message)) n) (dispatch modules c s w)
  unfolding dispatch
  dispatch-Handling id n c s w (from, to) v = elim (Bool-cases c.canceled) [
    | inl e ↦ rw e (handled _ n c.from _ _ s from (pay.cancelled c.from c.to c.message w from to) v)
    | inr e ↦ rw e (
        Returns-bind _ (Handling (delivering id (weight c.message)) n)
          (call c.to (modules.message_received c.to c.from c.message w) s) _
          (call-Funded known weight (delivering id (weight c.message)) n last room
            (λ b r. potential r.0 ≤ b) c.to _ _ s to (pay.received c.to c.from c.message w to from)
            v)
          (λ (s₁, (w₁, m₁, ret)) (left, v₁, enough).
            answer ret s₁ w₁ m₁ (less _ n left (potential w₁) s₁ enough v₁)))
  ]
    where
      answer :
          (ret : Option M) (s₁ : System M) (w₁ : W) (m₁ : M)
          → Handling (delivering id (weight c.message)) n (s₁, w₁)
          → Returns {A = System M × W} (Handling (delivering id (weight c.message)) n) (elim ret [
            | none ↦
                call c.from (modules.message_finished c.from c.to m₁ modules.empty_message w₁) s₁
            | some r ↦ call c.from (modules.message_finished c.from c.to m₁ r w₁) s₁ >>= λ (s₂, w₂).
                call c.to (modules.message_finished c.to c.to r modules.empty_message w₂) s₂
          ])
      answer none s₁ w₁ m₁ v₁ =
          handled _ n c.from _ _ s₁ from
            (pay.finished c.from c.to m₁ modules.empty_message w₁ from to) v₁
      answer (some r) s₁ w₁ m₁ v₁ =
          Returns-bind (Handling (delivering id (weight c.message)) n)
            (Handling (delivering id (weight c.message)) n)
            (call c.from (modules.message_finished c.from c.to m₁ r w₁) s₁) _
            (handled _ n c.from _ _ s₁ from (pay.finished c.from c.to m₁ r w₁ from to) v₁)
            (λ (s₂, w₂) v₂.
              handled _ n c.to _ _ s₂ to (pay.finished c.to c.to r modules.empty_message w₂ to to)
                v₂)

  -- A handled container is forgotten, with its share.
  retire-Ready :
      (id held n : ℕ) (s : System M) (w : W)
      → Handling (delivering id held) (suc n + held) (s, w)
      → Inv (retire id s)
      → Ready n (retire id s, w)
  unfolding retire
  retire-Ready id held n s w v inv =
      let (c, found, same) =
        burden_of-some known weight (lookup id s.active_timer) held v.holding in
      record {
        inv = inv;
        modules_are = v.modules_are;
        ends = λ k. rw lookup-erase (ends_erased k);
        fresh = λ k. rw member-remove (ground (arith, v.fresh k));
        holding = tt;
        steps = omega (arith, v.steps, tally-erase (load known weight) id c s.active_timer found);
        uuids = omega (arith, v.uuids, tally-erase (burden known weight) id c s.active_timer found);
      }
    where
      ends_erased :
          (k : ℕ) → KnownEnds known weight (if id == k then none else lookup k s.active_timer)
      ends_erased k = elim (Bool-cases (id == k)) [
        | inl it ↦ rw it tt
        | inr other ↦ rw other (v.ends k)
      ]

  pub deliver-Ready :
      (n : ℕ) (e : Entry) (rest : List Entry) (s : System M) (w : W)
      → s.timer_queue ≡ e ∷ rest
      → Ready (suc n) (s, w)
      → Returns (Ready n) (deliver modules e rest s w)
  unfolding deliver
  deliver-Ready n e rest s w q v = elim (Option-cases (lookup e.uuid s.active_timer)) [
    | inl gone ↦ absurd (head_live e rest s q v.inv gone)
    | inr (c, found) ↦
        let t : System M = record s { current_time = e.wakeup; timer_queue = rest } in
        let held : ℕ = weight c.message in
        let ends : KnownEnds known weight (some c) = rw found at (v.ends e.uuid) in
        let popped : Funded known weight (delivering e.uuid held) (suc n + held) last
            (potential w + held) t =
          record {
            inv = (pop-InHand e rest s q v.inv).inv;
            modules_are = v.modules_are;
            ends = v.ends;
            fresh = v.fresh;
            holding = rw found refl;
            steps = omega (arith, v.steps);
            uuids = omega (arith, v.uuids);
          } in
        Returns-apply (λ r. Inv r.0) (Ready n) (deliver modules e rest s w)
          (rw (found, deliver)
            (Returns-bind (Handling (delivering e.uuid held) (suc n + held))
              (λ r. Inv r.0 → Ready n r) (dispatch modules c t w) _
              (dispatch-Handling e.uuid (suc n + held) c t w ends popped)
              (λ (s', w') v' inv. retire-Ready e.uuid held n s' w' v' inv)))
          (deliver-Inv modules e rest s w q v.inv)
  ]

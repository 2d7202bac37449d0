-- ===== src/System/Ensures.antt =====
-- What a run of the core guarantees of its result, and the rule for the code of a module.
use kensv.Prelude.{ℕ, inl, inr, Bool, Bool-cases, List}
use kensv.Prelude.NumSet.{insert, remove}
use kensv.System.{
  System, assertion, null_module, dangling, Result, ok, fault, out_of_fuel, ◌>>=◌, Prog, done, fail,
  send, cancel, clock, add_runnable, del_runnable, send_message, cancel_message, exec, call,
  is_registered,
}

-- The result meets `P`, and no pointer of the queue dangles. A failed assertion, an unknown module
-- and the end of the fuel are left open.
abbrev pub Ensures {ℓ} : {A : Type ℓ} → (A → Type 0) → Result A → Type 0
Ensures P (ok a) = P a
Ensures P (fault assertion) = Unit
Ensures P (fault null_module) = Unit
Ensures P (fault dangling) = ⊥
Ensures P out_of_fuel = Unit

pub Ensures-bind {ℓ κ} :
    {A : Type ℓ} {B : Type κ} (P : A → Type 0) (Q : B → Type 0) (m : Result A) (f : A → Result B)
    → Ensures P m
    → ((a : A) → P a → Ensures Q (f a))
    → Ensures Q (m >>= f)
Ensures-bind P Q (ok a) f h k = k a h
Ensures-bind P Q (fault assertion) f h k = tt
Ensures-bind P Q (fault null_module) f h k = tt
Ensures-bind P Q (fault dangling) f h k = h
Ensures-bind P Q out_of_fuel f h k = tt

pub Ensures-map {ℓ} :
    {A : Type ℓ} (P Q : A → Type 0) (m : Result A)
    → ((a : A) → P a → Q a)
    → Ensures P m
    → Ensures Q m
Ensures-map P Q (ok a) f h = f a h
Ensures-map P Q (fault assertion) f h = tt
Ensures-map P Q (fault null_module) f h = tt
Ensures-map P Q (fault dangling) f h = h
Ensures-map P Q out_of_fuel f h = tt

pub Ensures-both {ℓ} :
    {A : Type ℓ} (P Q : A → Type 0) (m : Result A)
    → Ensures P m
    → Ensures Q m
    → Ensures (λ a. P a × Q a) m
Ensures-both P Q (ok a) h k = (h, k)
Ensures-both P Q (fault assertion) h k = tt
Ensures-both P Q (fault null_module) h k = tt
Ensures-both P Q (fault dangling) h k = h
Ensures-both P Q out_of_fuel h k = tt

-- Every message that the code sends, on whatever answers it gets, has a delay that meets `D`.
abbrev pub Delays {ℓ} : {M R : Type ℓ} → (ℕ → Type 0) → Prog M R → Type 0
Delays D (done r) = Unit
Delays D fail = Unit
Delays D (send from to m after k) = D after × ((u : ℕ) → Delays D (k u))
Delays D (cancel id k) = (b : Bool) → Delays D (k b)
Delays D (clock k) = (t : ℕ) → Delays D (k t)
Delays D (add_runnable r k) = Delays D k
Delays D (del_runnable r k) = Delays D k

pub Delays-any {ℓ} : {M R : Type ℓ} (p : Prog M R) → Delays (λ _. Unit {0}) p
Delays-any (done r) = tt
Delays-any fail = tt
Delays-any (send from to m after k) = (tt, λ u. Delays-any (k u))
Delays-any (cancel id k) = λ b. Delays-any (k b)
Delays-any (clock k) = λ t. Delays-any (k t)
Delays-any (add_runnable r k) = Delays-any k
Delays-any (del_runnable r k) = Delays-any k

-- What each call of the core keeps, the code of every module keeps.
pub record IsKept {ℓ} {M : Type ℓ} (D : ℕ → Type 0) (P : System M → Type 0) : Type ℓ where
  pub on_send :
      (from to : ℕ) (m : M) (after : ℕ) (s : System M)
      → D after
      → P s
      → Ensures (λ r. P r.0) (send_message from to m after s)
  pub on_cancel : (id : ℕ) (s : System M) → P s → P (cancel_message id s).0
  pub on_ready : (rs : List ℕ) (s : System M) → P s → P (record s { runnable_ready = rs })

module _ {ℓ} {M R : Type ℓ} (D : ℕ → Type 0) (P : System M → Type 0) (kept : IsKept D P) where
  pub exec-kept : (p : Prog M R) (s : System M) → Delays D p → P s → Ensures (λ r. P r.0) (exec p s)
  unfolding exec
  exec-kept (done r) s d h = h
  exec-kept fail s d h = tt
  exec-kept (send from to m after k) s d h =
      Ensures-bind (λ r. P r.0) (λ r. P r.0) (send_message from to m after s) _
        (kept.on_send from to m after s d.0 h) (λ (s', u) h'. exec-kept (k u) s' (d.1 u) h')
  exec-kept (cancel id k) s d h =
      exec-kept (k (cancel_message id s).1) (cancel_message id s).0 (d _) (kept.on_cancel id s h)
  exec-kept (clock k) s d h = exec-kept (k s.current_time) s (d _) h
  exec-kept (add_runnable r k) s d h =
      exec-kept k _ d (kept.on_ready (insert r s.runnable_ready) s h)
  exec-kept (del_runnable r k) s d h =
      exec-kept k _ d (kept.on_ready (remove r s.runnable_ready) s h)

  pub call-kept :
      (id : ℕ) (p : Prog M R) (s : System M) → Delays D p → P s → Ensures (λ r. P r.0) (call id p s)
  unfolding call
  call-kept id p s d h = elim (Bool-cases (is_registered id s)) [
    | inl known ↦ rw known (exec-kept p s d h)
    | inr unknown ↦ rw unknown tt
  ]

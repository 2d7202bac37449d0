-- ===== src/System/Hands.antt =====
-- Results that are there, and what is out of the queue while a message is handled.
use kensv.Prelude.{ℕ, ◌+◌, ◌≤◌, inl, inr, List, [], ◌∷◌, length, Bool-cases, arith}
use kensv.Prelude.NumSet.{member, insert, remove, length-remove-le}
use kensv.System.Ensures.{Ensures}
use kensv.System.{Result, ok, fault, out_of_fuel, ◌>>=◌}

-- The result is there, and meets `P`.
abbrev pub Returns {ℓ} : {A : Type ℓ} → (A → Type 0) → Result A → Type 0
Returns P (ok a) = P a
Returns P (fault e) = ⊥
Returns P out_of_fuel = ⊥

pub Returns-bind {ℓ κ} :
    {A : Type ℓ} {B : Type κ} (P : A → Type 0) (Q : B → Type 0) (m : Result A) (f : A → Result B)
    → Returns P m
    → ((a : A) → P a → Returns Q (f a))
    → Returns Q (m >>= f)
Returns-bind P Q (ok a) f h k = k a h
Returns-bind P Q (fault e) f h k = h
Returns-bind P Q out_of_fuel f h k = h

pub Returns-map {ℓ} :
    {A : Type ℓ} (P Q : A → Type 0) (m : Result A)
    → ((a : A) → P a → Q a)
    → Returns P m
    → Returns Q m
Returns-map P Q (ok a) f h = f a h
Returns-map P Q (fault e) f h = h
Returns-map P Q out_of_fuel f h = h

-- What holds of every result holds of the one that is there.
pub Returns-apply {ℓ} :
    {A : Type ℓ} (P Q : A → Type 0) (m : Result A)
    → Returns (λ a. P a → Q a) m
    → Ensures P m
    → Returns Q m
Returns-apply P Q (ok a) f h = f h
Returns-apply P Q (fault e) f h = f
Returns-apply P Q out_of_fuel f h = f

-- What is out of the queue while it is handled: nothing, a container of a uuid and a weight, or a
-- runnable.
pub data Hand : Type 0 where
  idle : Hand
  delivering : ℕ → ℕ → Hand
  waking : ℕ → Hand

abbrev pub extra : Hand → ℕ
extra idle = 0
extra (delivering id held) = held
extra (waking r) = 0

abbrev pub ready_count : Hand → List ℕ → ℕ
ready_count idle rs = length rs
ready_count (delivering id held) rs = length rs
ready_count (waking r) rs = length (remove r rs)

length-insert_le : (k : ℕ) (s : List ℕ) → length (insert k s) ≤ length s + 1
unfolding insert
length-insert_le k s = ground arith

length-remove-insert :
    (k r : ℕ) (rs : List ℕ) → length (remove k (insert r rs)) ≤ length (remove k rs) + 1
unfolding insert remove
length-remove-insert k r rs = elim (Bool-cases (member r rs)) [
  | inl there ↦ rw there (omega arith)
  | inr new ↦ rw new (ground arith)
]

length-remove-remove :
    (k r : ℕ) (rs : List ℕ) → length (remove k (remove r rs)) ≤ length (remove k rs)
unfolding remove
length-remove-remove k r [] = omega arith
length-remove-remove k r (x ∷ rs) = ground (arith, length-remove-remove k r rs)

pub ready_count-insert :
    (hand : Hand) (r : ℕ) (rs : List ℕ) → ready_count hand (insert r rs) ≤ ready_count hand rs + 1
ready_count-insert idle r rs = length-insert_le r rs
ready_count-insert (delivering id held) r rs = length-insert_le r rs
ready_count-insert (waking k) r rs = length-remove-insert k r rs

pub ready_count-remove :
    (hand : Hand) (r : ℕ) (rs : List ℕ) → ready_count hand (remove r rs) ≤ ready_count hand rs
ready_count-remove idle r rs = length-remove-le r rs
ready_count-remove (delivering id held) r rs = length-remove-le r rs
ready_count-remove (waking k) r rs = length-remove-remove k r rs

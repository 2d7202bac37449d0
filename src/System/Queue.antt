-- ===== src/System/Queue.antt =====
-- `std::priority_queue<TimerContainer, ..., TimerContainerLess>` of src/E/E_System.cpp: the list of
-- its pointers in the order in which `top` and `pop` yield them.
use kensv.Prelude.{
  ℕ, ◌<◌, ◌≡◌, ◌≢◌, ◌⊎◌, inl, inr, Bool, true, false, not, List, [], ◌∷◌, All, ltb, ◌==◌,
  if◌then◌else◌, Bool-cases, arith,
}

pub record Entry : Type 0 where
  pub wakeup : ℕ
  pub uuid : ℕ

-- `TimerContainerLess`: `a` ranks below `b`, so it leaves the queue after it.
unfoldable pub less : Entry → Entry → Bool
less a b = if not (a.wakeup == b.wakeup) then ltb b.wakeup a.wakeup else ltb b.uuid a.uuid

unfoldable pub push : Entry → List Entry → List Entry
push e [] = e ∷ []
push e (x ∷ xs) = if less x e then e ∷ x ∷ xs else x ∷ push e xs

-- The order of delivery: by wake-up time, and by uuid at one time.
abbrev pub Earlier : Entry → Entry → Type 0
Earlier a b = (a.wakeup < b.wakeup) ⊎ ((a.wakeup ≡ b.wakeup) × (a.uuid < b.uuid))

abbrev pub IsSorted : List Entry → Type 0
IsSorted [] = Unit
IsSorted (x ∷ xs) = All (Earlier x) xs × IsSorted xs

pub All-push {κ} :
    (P : Entry → Type κ) (e : Entry) (xs : List Entry) → P e → All P xs → All P (push e xs)
unfolding push
All-push P e [] p h = (p, tt)
All-push P e (x ∷ xs) p h = elim (Bool-cases (less x e)) [
  | inl below ↦ rw below (p, h)
  | inr above ↦ rw above (h.0, All-push P e xs p h.1)
]

less→Earlier : (a b : Entry) → less a b ≡ true → Earlier b a
unfolding less
less→Earlier a b h = ground arith

not_less→Earlier : (a b : Entry) → less a b ≡ false → a.uuid ≢ b.uuid → Earlier a b
unfolding less
not_less→Earlier a b h ne = ground arith

pub Earlier-trans : (a b c : Entry) → Earlier a b → Earlier b c → Earlier a c
Earlier-trans a b c h k = ground arith

All-Earlier :
    (a b : Entry) (xs : List Entry) → Earlier a b → All (Earlier b) xs → All (Earlier a) xs
All-Earlier a b [] h k = tt
All-Earlier a b (x ∷ xs) h k = (Earlier-trans a b x h k.0, All-Earlier a b xs h k.1)

-- Pushing an entry with a new uuid keeps the order strict.
pub push-IsSorted :
    (e : Entry) (xs : List Entry)
    → All (λ x. x.uuid ≢ e.uuid) xs
    → IsSorted xs
    → IsSorted (push e xs)
unfolding push
push-IsSorted e [] new s = (tt, tt)
push-IsSorted e (x ∷ xs) new s = elim (Bool-cases (less x e)) [
  | inl below ↦
      let first = less→Earlier x e below in rw below ((first, All-Earlier e x xs first s.0), s)
  | inr above ↦ rw above (
    All-push (Earlier x) e xs (not_less→Earlier x e above new.0) s.0,
    push-IsSorted e xs new.1 s.1,
  )
]

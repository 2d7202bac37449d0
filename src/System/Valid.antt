-- ===== src/System/Valid.antt =====
-- The states of the core between its calls: every active container is queued.
use kensv.Prelude.{
  ℕ, ◌≤◌, ◌<◌, ◌≡◌, refl, inl, inr, Bool, true, false, none, List, [], ◌∷◌, All, All-map, ◌==◌,
  if◌then◌else◌, Bool-cases, arith,
}
use kensv.Prelude.Table.{lookup}
use kensv.Prelude.NumSet.{member}
use kensv.System.Queue.{Entry, Earlier, IsSorted, push}
use kensv.System.Invariant.{is_some, Inv}
use kensv.System.{System, past, next_event}

-- Whether an entry of the queue has the uuid.
unfoldable pub queued : ℕ → List Entry → Bool
queued id [] = false
queued id (e ∷ es) = let rest = queued id es in if e.uuid == id then true else rest

pub queued-push :
    (id : ℕ) (e : Entry) (es : List Entry)
    → queued id (push e es) ≡ (if e.uuid == id then true else queued id es)
unfolding queued push
queued-push id e [] = refl
queued-push id e (x ∷ es) = ground (arith, queued-push id e es)

-- What holds of every entry holds of the one with the uuid.
pub entry_of :
    (P : Entry → Type 0) (id : ℕ) (es : List Entry)
    → queued id es ≡ true
    → All P es
    → (e : Entry) × (e.uuid ≡ id) × P e
unfolding queued
entry_of P id [] h k = cc
entry_of P id (e ∷ es) h k = elim (Bool-cases (e.uuid == id)) [
  | inl it ↦ (e, ground arith, k.0)
  | inr other ↦ entry_of P id es (rw other at h) k.1
]

-- Every active container is queued, and the uuids in use are not above the last one.
pub record Valid {ℓ} {M : Type ℓ} (s : System M) : Type 0 where
  pub inv : Inv s
  pub queued_all :
      (id : ℕ) → is_some (lookup id s.active_timer) ≡ true → queued id s.timer_queue ≡ true
  pub fresh : (id : ℕ) → member id s.active_uuid ≡ true → id ≤ s.current_uuid

-- Where nothing is taken, no entry is due.
pub stopped :
    (till : ℕ) (es : List Entry)
    → next_event till es ≡ none
    → IsSorted es
    → All (λ e. (0 < till) × (till < e.wakeup)) es
unfolding next_event past
stopped till [] h sorted = tt
stopped till (e ∷ es) h sorted =
    let due : (0 < till) × (till < e.wakeup) = ground arith in
    (due, All-map (Earlier e) _ es (λ x later. (due.0, ground arith)) sorted.0)

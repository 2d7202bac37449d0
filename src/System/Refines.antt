-- ===== src/System/Refines.antt =====
-- Any calls of the core replay on its abstract state.
use kensv.Prelude.{ℕ, ◌+◌, ◌<◌, ◌≡◌, refl, subst, List, [], ◌∷◌, arith}
use kensv.Prelude.Table.{lookup}
use kensv.Prelude.NumSet.{member}
use kensv.System.Invariant.{init-Inv}
use kensv.System.Spec.{Op, sends, cancels, takes, Answer, run_ops, view, Replays, ends, follows}
use kensv.System.Steps.{Good, send-Good, cancel-Good, take-Good}
use kensv.System.Valid.{Valid}
use kensv.System.{System, word, ok, init}

-- How many uuids a call needs.
abbrev pub needs {ℓ} : {M : Type ℓ} → Op M → ℕ
needs (sends from to m after) = 1
needs (cancels id) = 0
needs (takes till) = 0

abbrev pub all_need {ℓ} : {M : Type ℓ} → List (Op M) → ℕ
all_need [] = 0
all_need (op ∷ ops) = needs op + all_need ops

module _ {ℓ} {M : Type ℓ} where
  step-Good :
      (op : Op M) (s : System M)
      → Valid s
      → s.current_uuid + needs op < word
      → Good op (s.current_uuid + needs op) s
  step-Good (sends from to m after) s v room = send-Good from to m after s v room
  step-Good (cancels id) s v room =
      subst (λ n. Good (cancels id) n s) (omega arith) (cancel-Good id s v)
  step-Good (takes till) s v room =
      subst (λ n. Good (takes till) n s) (omega arith) (take-Good till s v)

  pub init-Valid : (modules : List ℕ) → Valid (init {M = M} modules)
  unfolding init lookup member
  init-Valid modules = record {
    inv = init-Inv modules;
    queued_all = λ id there. cc;
    fresh = λ id used. cc;
  }

  -- From a valid state, while the uuids last, any sequence of sending, cancelling and taking messages
  -- returns, and ends in a valid state, and its answers are those of the abstract state: every message
  -- that is taken is the one with the least time, and the one sent first among those of that time;
  -- it carries what was sent, with the mark of a cancellation; and nothing is taken exactly if no pending
  -- message is due.
  pub run_ops-Replays :
      (ops : List (Op M)) (s : System M)
      → Valid s
      → s.current_uuid + all_need ops < word
      → (s' : System M) × (as' : List (Answer M)) × (run_ops ops s ≡ ok (s', as'))
        × Replays ops as' (view s) (view s')
        × Valid s'
  unfolding run_ops
  run_ops-Replays [] s v room = (s, [], refl, ends, v)
  run_ops-Replays (op ∷ ops) s v room =
      let (s₁, a, run, allows, v₁, small) = step-Good op s v (omega arith) in
      let (s₂, as', runs, replays, v₂) = run_ops-Replays ops s₁ v₁ (omega arith) in
      (s₂, a ∷ as', rw (run, runs) refl, follows allows replays, v₂)

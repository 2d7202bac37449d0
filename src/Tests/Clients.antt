-- ===== src/Tests/Clients.antt =====
-- Two messages of one time, of which the first is cancelled.
use kensv.Prelude.{ℕ, ◌≡◌, List, [], ◌∷◌, arith}
use kensv.System.{System, init, ok}
use kensv.System.Spec.{Op, sends, cancels, takes, Answer, run_ops, view, Replays}
use kensv.System.Valid.{Valid}
use kensv.System.Refines.{init-Valid, run_ops-Replays}

abbrev calls : List (Op ℕ)
calls = sends 1 2 30 5 ∷ sends 1 2 31 5 ∷ cancels 1 ∷ takes 9 ∷ takes 9 ∷ takes 9 ∷ []

abbrev start : System ℕ
start = init (1 ∷ 2 ∷ [])

run_ops-Replays_example :
    (s' : System ℕ) × (as' : List (Answer ℕ)) × (run_ops calls start ≡ ok (s', as'))
    × Replays calls as' (view start) (view s')
    × Valid s'
unfolding init
run_ops-Replays_example = run_ops-Replays calls start (init-Valid (1 ∷ 2 ∷ [])) (omega arith)

-- ===== src/Prelude/Tally.antt =====
-- Sums over the entries of a table.
use Prim.Native.Nat.{ℕ, ◌+◌, ◌≤◌}
use mathlib.Core.Path.{◌≡◌, ap}
use mathlib.Core.Option.{none, some}
use mathlib.Core.List.{[], ◌∷◌}
use native.Mathlib.Omega.{arith}
use mathlib.Core.Logic.{inl, inr}
use kensv.Prelude.Tests.{◌==◌, Bool-cases}
use kensv.Prelude.Table.{Table, lookup, assign, erase}

module _ {ℓ} {V : Type ℓ} (f : V → ℕ) where
  unfoldable pub tally : Table V → ℕ
  tally [] = 0
  tally ((k, v) ∷ m) = f v + tally m

  pub tally-assign_new :
      (k : ℕ) (v : V) (m : Table V) → lookup k m ≡ none → tally (assign k v m) ≡ tally m + f v
  unfolding tally lookup assign
  tally-assign_new k v [] h = omega arith
  tally-assign_new k v ((j, w) ∷ m) h = ground (arith, tally-assign_new k v m)

  pub tally-assign_same :
      (k : ℕ) (v u : V) (m : Table V)
      → lookup k m ≡ some u
      → f v ≡ f u
      → tally (assign k v m) ≡ tally m
  unfolding tally lookup assign
  tally-assign_same k v u [] h e = cc
  tally-assign_same k v u ((j, w) ∷ m) h e = elim (Bool-cases (j == k)) [
    | inl same ↦ let here : w ≡ u = ground arith in rw same (ground (arith, here))
    | inr other ↦ rw other (ground (arith, tally-assign_same k v u m))
  ]

  tally-erase_le : (k : ℕ) (m : Table V) → tally (erase k m) ≤ tally m
  unfolding tally erase
  tally-erase_le k [] = omega arith
  tally-erase_le k ((j, w) ∷ m) = ground (arith, tally-erase_le k m)

  -- An entry that is erased takes its share with it.
  pub tally-erase :
      (k : ℕ) (v : V) (m : Table V) → lookup k m ≡ some v → tally (erase k m) + f v ≤ tally m
  unfolding tally lookup erase
  tally-erase k v [] h = cc
  tally-erase k v ((j, w) ∷ m) h = elim (Bool-cases (j == k)) [
    | inl same ↦
        let here : w ≡ v = ground arith in rw same (omega (arith, tally-erase_le k m, ap f here))
    | inr other ↦ rw other (ground (arith, tally-erase k v m))
  ]

  pub le-tally : (k : ℕ) (v : V) (m : Table V) → lookup k m ≡ some v → f v ≤ tally m
  le-tally k v m h = omega (arith, tally-erase k v m h)

-- ===== src/Prelude/NumSet.antt =====
-- Sets of numbers as lists without repetition: what the code uses of `std::unordered_set`.
use Prim.Native.Nat.{ℕ, ◌≤◌, ◌<◌}
use mathlib.Core.Path.{◌≡◌}
use mathlib.Core.Bool.{Bool, true, false}
use mathlib.Core.List.{List, [], ◌∷◌}
use native.Mathlib.Omega.{arith}
use kensv.Prelude.Lists.{length}
use kensv.Prelude.Tests.{◌==◌, if◌then◌else◌}

unfoldable pub member : ℕ → List ℕ → Bool
member k [] = false
member k (j ∷ s) = if j == k then true else member k s

unfoldable pub insert : ℕ → List ℕ → List ℕ
insert k s = if member k s then s else k ∷ s

unfoldable pub remove : ℕ → List ℕ → List ℕ
remove k [] = []
remove k (j ∷ s) = let rest = remove k s in if j == k then rest else j ∷ rest

pub member-insert :
    (k j : ℕ) (s : List ℕ) → member j (insert k s) ≡ (if k == j then true else member j s)
unfolding member insert
member-insert k j s = ground arith

pub member-remove :
    (k j : ℕ) (s : List ℕ) → member j (remove k s) ≡ (if k == j then false else member j s)
unfolding member remove
member-remove k j [] = ground arith
member-remove k j (i ∷ s) = ground (arith, member-remove k j s)

pub length-remove-le : (k : ℕ) (s : List ℕ) → length (remove k s) ≤ length s
unfolding remove
length-remove-le k [] = omega arith
length-remove-le k (j ∷ s) = ground (arith, length-remove-le k s)

pub length-remove-lt : (k : ℕ) (s : List ℕ) → member k s ≡ true → length (remove k s) < length s
unfolding remove member
length-remove-lt k [] h = cc
length-remove-lt k (j ∷ s) h = ground (arith, length-remove-lt k s, length-remove-le k s)

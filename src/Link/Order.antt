-- ===== src/Link/Order.antt =====
-- Queues that are in the order of sending: some of the packets that were sent, in their order.
use kensv.Prelude.{
  ℕ, zero, suc, List, [], ◌∷◌, ◌++◌, ◌-◌, if◌then◌else◌, not, ◌==◌, ◌&&◌, leb, ltb, Bool-cases, inl,
  inr, length,
}
use kensv.Packet.{Packet}
use kensv.Link.{erase_at, evict}

-- The first list is the second one, with some of its elements left out.
pub data Sub : List Packet → List Packet → Type 0 where
  ends : Sub [] []
  keeps : {xs ys : List Packet} (p : Packet) → Sub xs ys → Sub (p ∷ xs) (p ∷ ys)
  skips : {xs ys : List Packet} (p : Packet) → Sub xs ys → Sub xs (p ∷ ys)

pub Sub-refl : (xs : List Packet) → Sub xs xs
Sub-refl [] = ends
Sub-refl (p ∷ xs) = keeps p (Sub-refl xs)

pub Sub-trans : {xs ys zs : List Packet} → Sub xs ys → Sub ys zs → Sub xs zs
Sub-trans s ends = s
Sub-trans s (skips p t) = skips p (Sub-trans s t)
Sub-trans (keeps q s) (keeps p t) = keeps p (Sub-trans s t)
Sub-trans (skips q s) (keeps p t) = skips p (Sub-trans s t)

-- Another packet behind both.
pub Sub-snoc : {xs ys : List Packet} (p : Packet) → Sub xs ys → Sub (xs ++ p ∷ []) (ys ++ p ∷ [])
Sub-snoc p ends = keeps p ends
Sub-snoc p (keeps q s) = keeps q (Sub-snoc p s)
Sub-snoc p (skips q s) = skips q (Sub-snoc p s)

pub Sub-erase_at : (i : ℕ) (xs : List Packet) → Sub (erase_at i xs) xs
unfolding erase_at
Sub-erase_at i [] = ends
Sub-erase_at zero (p ∷ xs) = skips p (Sub-refl xs)
Sub-erase_at (suc i) (p ∷ xs) = keeps p (Sub-erase_at i xs)

pub Sub-evict : (place limit : ℕ) (q : List Packet) → Sub (evict place limit q) q
unfolding evict
Sub-evict place limit q = elim (Bool-cases (not (limit == 0) && leb limit (length q))) [
  | inr room ↦ rw room (Sub-refl q)
  | inl full ↦
      let index = if leb limit place then limit - 1 else place in
      rw full (elim (Bool-cases (ltb index (length q))) [
        | inl inside ↦ rw inside (Sub-erase_at index q)
        | inr outside ↦ rw outside (Sub-refl q)
      ])
]

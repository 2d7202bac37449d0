-- ===== src/Packet/Buffer.antt =====
-- Reading and writing the buffer of a packet: where they are defined, and what they do.
use Prim.Native.Nat.{min}
use native.Mathlib.Nat.{add-zero}
use kensv.Prelude.{
  ℕ, zero, suc, ◌+◌, ◌-◌, ◌≤◌, ◌<◌, ◌≡◌, ◌↔◌, refl, ap, sym, ◌∙◌, none, some, List, [], ◌∷◌, ◌++◌,
  length, take, drop, get_elem?, arith, length-append, take-append-drop, length-take, length-drop,
}
use kensv.Packet.{Packet, splice, write_data, read_data}

module _ {ℓ} {A : Type ℓ} where
  drop-append : (xs ys : List A) → drop (length xs) (xs ++ ys) ≡ ys
  drop-append [] ys = refl
  drop-append (x ∷ xs) ys = drop-append xs ys

  take-append : (xs ys : List A) → take (length xs) (xs ++ ys) ≡ xs
  take-append [] ys = refl
  take-append (x ∷ xs) ys = ap (◌∷◌ x) (take-append xs ys)

pub length-splice :
    (offset : ℕ) (bytes buffer : List ℕ)
    → offset + length bytes ≤ length buffer
    → length (splice offset bytes buffer) ≡ length buffer
length-splice offset bytes buffer h =
    rw
      (
        length-append (take offset buffer) (bytes ++ drop (offset + length bytes) buffer),
        length-append bytes (drop (offset + length bytes) buffer),
        length-take offset buffer,
        length-drop (offset + length bytes) buffer,
      )
      (omega arith)

-- A write that fits replaces the bytes in its range and returns their number.
pub write_data-fits :
    (offset : ℕ) (bytes : List ℕ) (p : Packet)
    → offset + length bytes ≤ length p.buffer
    → write_data offset bytes p
      ≡ some (record p { buffer = splice offset bytes p.buffer }, length bytes)
unfolding write_data
write_data-fits offset [] p h =
    let whole : splice offset [] p.buffer ≡ p.buffer =
      rw (add-zero offset) (take-append-drop offset p.buffer) in
    let none_left : min (length {A = ℕ} []) (length p.buffer - min offset (length p.buffer)) ≡ 0 =
      omega arith in
    rw (whole, none_left)
write_data-fits offset (b ∷ bs) p h =
    let start : min offset (length p.buffer) ≡ offset = omega arith in rw start (ground arith)

-- What a read that fits yields.
pub read_data-fits :
    (offset len : ℕ) (p : Packet)
    → offset + len ≤ length p.buffer
    → read_data offset len p ≡ some (take len (drop offset p.buffer), len)
unfolding read_data
read_data-fits offset zero p h = ground arith
read_data-fits offset (suc len) p h =
    let start : min offset (length p.buffer) ≡ offset = omega arith in rw start (ground arith)

-- A write is defined unless it starts inside the buffer and runs over its end: then the copy leaves
-- the buffer, though the value to be returned counts only the bytes that fit.
pub write_data-none :
    (offset : ℕ) (bytes : List ℕ) (p : Packet)
    → (write_data offset bytes p ≡ none)
      ↔ ((offset < length p.buffer) × (length p.buffer < offset + length bytes))
unfolding write_data
write_data-none offset bytes p = (λ h. ground arith, λ h. ground arith)

-- What was written is read back from the same place, and nothing else of the packet changes: its
-- size and id, and every byte outside of the range.
pub record Written (offset : ℕ) (bytes : List ℕ) (p q : Packet) : Type 0 where
  pub size : length q.buffer ≡ length p.buffer
  pub id : q.packet_id ≡ p.packet_id
  pub reads : read_data offset (length bytes) q ≡ some (bytes, length bytes)
  pub before : (k : ℕ) → k < offset → get_elem? q.buffer k ≡ get_elem? p.buffer k
  pub after : (k : ℕ) → offset + length bytes ≤ k → get_elem? q.buffer k ≡ get_elem? p.buffer k

get_elem?-append_left :
    (xs ys : List ℕ) (k : ℕ) → k < length xs → get_elem? (xs ++ ys) k ≡ get_elem? xs k
get_elem?-append_left [] ys k h = absurd (omega arith)
get_elem?-append_left (x ∷ xs) ys zero h = refl
get_elem?-append_left (x ∷ xs) ys (suc k) h = get_elem?-append_left xs ys k (omega arith)

get_elem?-append_right :
    (xs ys : List ℕ) (k : ℕ) → length xs ≤ k → get_elem? (xs ++ ys) k ≡ get_elem? ys (k - length xs)
get_elem?-append_right [] ys k h = ap (get_elem? ys) (omega arith)
get_elem?-append_right (x ∷ xs) ys zero h = absurd (omega arith)
get_elem?-append_right (x ∷ xs) ys (suc k) h =
    get_elem?-append_right xs ys k (omega arith) ∙ ap (get_elem? ys) (omega arith)

get_elem?-take : (n : ℕ) (xs : List ℕ) (k : ℕ) → k < n → get_elem? (take n xs) k ≡ get_elem? xs k
get_elem?-take zero xs k h = absurd (omega arith)
get_elem?-take (suc n) [] k h = refl
get_elem?-take (suc n) (x ∷ xs) zero h = refl
get_elem?-take (suc n) (x ∷ xs) (suc k) h = get_elem?-take n xs k (omega arith)

get_elem?-drop : (n : ℕ) (xs : List ℕ) (k : ℕ) → get_elem? (drop n xs) k ≡ get_elem? xs (n + k)
get_elem?-drop zero xs k = ap (get_elem? xs) (omega arith)
get_elem?-drop (suc n) [] k = refl
get_elem?-drop (suc n) (x ∷ xs) k =
    get_elem?-drop n xs k ∙ ap (get_elem? (x ∷ xs)) {x = suc (n + k)} (omega arith)

module _ (offset : ℕ) (bytes buffer : List ℕ) (fits : offset + length bytes ≤ length buffer) where
  front : length (take offset buffer) ≡ offset
  front = omega (arith, length-take offset buffer)

  splice-reads : take (length bytes) (drop offset (splice offset bytes buffer)) ≡ bytes
  splice-reads =
      ap (take (length bytes)) (
        ap (λ n. drop n (splice offset bytes buffer)) (sym front)
        ∙ drop-append (take offset buffer) _)
      ∙ take-append bytes (drop (offset + length bytes) buffer)

  splice-before :
      (k : ℕ) → k < offset → get_elem? (splice offset bytes buffer) k ≡ get_elem? buffer k
  splice-before k h =
      get_elem?-append_left (take offset buffer) _ k (omega (arith, front))
      ∙ get_elem?-take offset buffer k h

  splice-after :
      (k : ℕ)
      → offset + length bytes ≤ k
      → get_elem? (splice offset bytes buffer) k ≡ get_elem? buffer k
  splice-after k h =
      get_elem?-append_right (take offset buffer) _ k (omega (arith, front))
      ∙ get_elem?-append_right bytes _ (k - length (take offset buffer)) (omega (arith, front))
      ∙ get_elem?-drop (offset + length bytes) buffer
          (k - length (take offset buffer) - length bytes)
      ∙ ap (get_elem? buffer) (omega (arith, front))

-- A write that fits returns the number of bytes; they are read back from the same place, and the
-- size, the id and all bytes before and after them are as they were.
pub write_data-Written :
    (offset : ℕ) (bytes : List ℕ) (p : Packet)
    → offset + length bytes ≤ length p.buffer
    → (q : Packet) × (write_data offset bytes p ≡ some (q, length bytes)) × Written offset bytes p q
write_data-Written offset bytes p fits =
    let q : Packet = record p { buffer = splice offset bytes p.buffer } in
    let size = length-splice offset bytes p.buffer fits in
    (
      q,
      write_data-fits offset bytes p fits,
      record {
        size = size;
        id = refl;
        reads =
            read_data-fits offset (length bytes) q (omega arith)
            ∙ ap (λ bs. some (bs, length bytes)) (splice-reads offset bytes p.buffer fits);
        before = splice-before offset bytes p.buffer fits;
        after = splice-after offset bytes p.buffer fits;
      },
    )

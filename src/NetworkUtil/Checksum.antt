-- ===== src/NetworkUtil/Checksum.antt =====
-- `one_sum` against the one's complement sum of RFC 793, and `tcp_sum` through it.
use kensv.Prelude.{
  ℕ, ◌+◌, ◌-◌, ◌*◌, ◌%◌, ◌^◌, ◌<◌, ◌≡◌, ap, sym, ◌∙◌, inl, inr, Bool, true, not, List, [], ◌∷◌,
  ◌++◌, length, All, All-append, ltb, ◌==◌, if◌then◌else◌, Bool-cases, arith,
}
use native.Mathlib.Nat.{add-zero, add_assoc, mod-eq_of_lt}
use kensv.NetworkUtil.{fold_carry, one_sum_loop, one_sum, tcp_sum, pseudoheader}

abbrev pub IsByte : ℕ → Type 0
IsByte b = b < 2 ^ 8

-- The plain sum of the big-endian 16-bit words, an odd last byte padded with zero; `upper` says
-- whether the list begins with the upper half of a word.
unfoldable pub word_sum : Bool → List ℕ → ℕ
word_sum upper [] = 0
word_sum upper (b ∷ bs) = (if upper then b * 2 ^ 8 else b) + word_sum (not upper) bs

-- The one's complement sum of words whose plain sum is `n`: the remainder by 65535, with 65535 in
-- place of 0 unless all words are 0.
unfoldable pub ones_complement : ℕ → ℕ
ones_complement n = if n == 0 then 0 else (n - 1) % 65535 + 1

pub ones_complement_small : (n : ℕ) → n < 2 ^ 16 → ones_complement n ≡ n
unfolding ones_complement
ones_complement_small n h = ground arith

fold_carry_lt : (n : ℕ) → n < 2 ^ 17 - 1 → fold_carry n < 2 ^ 16
unfolding fold_carry
fold_carry_lt n h = omega arith

ones_complement-fold_carry :
    (n m : ℕ) → n < 2 ^ 17 - 1 → ones_complement (fold_carry n + m) ≡ ones_complement (n + m)
unfolding fold_carry ones_complement
ones_complement-fold_carry n m h = ground arith

one_sum_loop_lem :
    (upper : Bool) (sum : ℕ) (bs : List ℕ)
    → sum < 2 ^ 16
    → All IsByte bs
    → one_sum_loop upper sum bs ≡ ones_complement (sum + word_sum upper bs)
unfolding one_sum_loop word_sum
one_sum_loop_lem upper sum [] h bytes = rw add-zero (sym (ones_complement_small sum h))
one_sum_loop_lem upper sum (b ∷ bs) h bytes =
    let v : ℕ = if upper then b * 2 ^ 8 else b in
    let small : sum + v < 2 ^ 17 - 1 = ground arith in
    rw (mod-eq_of_lt {n = sum + v} {m = 2 ^ 32} (omega arith)) (
      one_sum_loop_lem (not upper) (fold_carry (sum + v)) bs (fold_carry_lt (sum + v) small) bytes.1
      ∙ ones_complement-fold_carry (sum + v) (word_sum (not upper) bs) small
      ∙ ap ones_complement (add_assoc sum v (word_sum (not upper) bs)))

ones_complement_lt : (n : ℕ) → ones_complement n < 2 ^ 16
unfolding ones_complement
ones_complement_lt n = ground arith

fold_carry_small : (n : ℕ) → n < 2 ^ 16 → fold_carry n % 2 ^ 16 ≡ n
unfolding fold_carry
fold_carry_small n h = omega arith

-- `one_sum` of a buffer of bytes is the ones' complement sum of its 16-bit words, the higher byte
-- first.
pub one_sum_lem : (bs : List ℕ) → All IsByte bs → one_sum bs ≡ ones_complement (word_sum true bs)
unfolding one_sum
one_sum_lem bs bytes =
    let whole = one_sum_loop_lem true 0 bs (omega arith) bytes in
    let total : one_sum_loop true 0 bs ≡ ones_complement (word_sum true bs) =
      whole ∙ ap ones_complement (omega arith) in
    rw total (fold_carry_small _ (ones_complement_lt (word_sum true bs)))

ones_complement-add : (a b : ℕ) → ones_complement (ones_complement a + b) ≡ ones_complement (a + b)
unfolding ones_complement
ones_complement-add a b = ground arith

-- The sum of two buffers' sums, folded once, is the sum of both.
fold_carry-ones_complement :
    (a b : ℕ)
    → fold_carry ((ones_complement a + ones_complement b) % 2 ^ 32) % 2 ^ 16
      ≡ ones_complement (a + b)
unfolding fold_carry ones_complement
fold_carry-ones_complement a b = ground arith

pseudoheader-IsByte : (source dest len : ℕ) → All IsByte (pseudoheader source dest len)
unfolding pseudoheader
pseudoheader-IsByte source dest len = omega arith

-- The pseudo header fills whole words, so the sums add up.
word_sum-pseudoheader :
    (source dest len : ℕ) (seg : List ℕ)
    → word_sum true (pseudoheader source dest len ++ seg)
      ≡ word_sum true (pseudoheader source dest len) + word_sum true seg
unfolding pseudoheader word_sum
word_sum-pseudoheader source dest len seg = omega arith

-- For a segment of bytes, the checksum of a segment of at least 20 bytes is `one_sum` of the
-- pseudo header and the segment in one buffer, and that of a shorter segment is 0.
pub tcp_sum_lem :
    (source dest : ℕ) (seg : List ℕ)
    → All IsByte seg
    → tcp_sum source dest seg
      ≡ (if ltb (length seg) 20 then 0 else one_sum (pseudoheader source dest (length seg) ++ seg))
unfolding tcp_sum
tcp_sum_lem source dest seg bytes = elim (Bool-cases (ltb (length seg) 20)) [
  | inl short ↦ rw short
  | inr long ↦
      let header = pseudoheader source dest (length seg) in
      let header_bytes = pseudoheader-IsByte source dest (length seg) in
      rw
        (
          long,
          one_sum_lem header header_bytes,
          one_sum_lem seg bytes,
          one_sum_lem (header ++ seg) (All-append IsByte header seg header_bytes bytes),
          word_sum-pseudoheader source dest (length seg) seg,
        )
        (fold_carry-ones_complement _ _)
]

-- A sum that is not 0 is completed to 0xFFFF by the inverse of its one's complement.
pub ones_complement_complete :
    (n : ℕ) → 0 < n → ones_complement (n + (65535 - ones_complement n)) ≡ 65535
unfolding ones_complement
ones_complement_complete n h = ground arith

-- ===== src/NetworkUtil/Bytes.antt =====
-- `UINT64ToArray` and `arrayToUINT64` are inverse on arrays of at most eight bytes.
use native.Mathlib.Nat.{
  mod-eq_of_lt, add-mul-div_left, pow-le-pow_right, lt_of_lt_of_le, div-eq_of_lt,
}
use native.Mathlib.Numerals.{towards_suc, add-one}
use mathlib.Core.Path.{ap₂}
use kensv.Prelude.{
  ℕ, ◌+◌, ◌*◌, ◌/◌, ◌%◌, ◌^◌, ◌≤◌, ◌<◌, ◌≡◌, refl, sym, ◌∙◌, List, [], ◌∷◌, length, All, arith,
}
use kensv.NetworkUtil.{uint64_to_array_from, uint64_to_array, array_to_uint64_from, array_to_uint64}
use kensv.NetworkUtil.Checksum.{IsByte}

-- The number whose bytes these are, the lowest first.
abbrev pub value : List ℕ → ℕ
value [] = 0
value (b ∷ bs) = b + 256 * value bs

pow_step : (k : ℕ) → 2 ^ (8 * (k + 1)) ≡ 256 * 2 ^ (8 * k)
pow_step k =
    let split : 8 * (k + 1) ≡ 8 * k + 8 = omega arith in rw split (simp towards_suc (omega arith))

value-lt : (bs : List ℕ) → All IsByte bs → value bs < 2 ^ (8 * length bs)
value-lt [] bytes = omega arith
value-lt (b ∷ bs) bytes =
    rw (← add-one (length bs), pow_step (length bs)) (omega (arith, value-lt bs bytes.1))

array_to_uint64_from_lem :
    (k sum : ℕ) (bs : List ℕ)
    → sum + 2 ^ (8 * k) * value bs < 2 ^ 64
    → array_to_uint64_from k sum bs ≡ sum + 2 ^ (8 * k) * value bs
unfolding array_to_uint64_from
array_to_uint64_from_lem k sum [] h = omega arith
array_to_uint64_from_lem k sum (b ∷ bs) h =
    let p : ℕ = 2 ^ (8 * k) in
    let split : p * (b + 256 * value bs) ≡ b * p + 256 * p * value bs = omega arith in
    let whole : sum + b * p + 2 ^ (8 * (k + 1)) * value bs ≡ sum + p * (b + 256 * value bs) =
      rw (pow_step k) (omega arith) in
    let kept : (sum + b * p) % 2 ^ 64 ≡ sum + b * p = mod-eq_of_lt (omega arith) in
    rw kept (array_to_uint64_from_lem (k + 1) (sum + b * p) bs (rw whole h) ∙ whole)

-- `arrayToUINT64` of at most eight bytes is the number whose bytes they are, the lowest first.
pub array_to_uint64-value :
    (bs : List ℕ) → length bs ≤ 8 → All IsByte bs → array_to_uint64 bs ≡ value bs
unfolding array_to_uint64
array_to_uint64-value bs short bytes =
    let small : value bs < 2 ^ 64 =
      lt_of_lt_of_le (value-lt bs bytes) (pow-le-pow_right (omega arith) {j = 64} (omega arith)) in
    array_to_uint64_from_lem 0 0 bs (omega arith) ∙ omega arith

uint64_to_array_from_lem :
    (k low : ℕ) (bs : List ℕ)
    → All IsByte bs
    → low < 2 ^ (8 * k)
    → uint64_to_array_from (length bs) k (low + 2 ^ (8 * k) * value bs) ≡ bs
unfolding uint64_to_array_from
uint64_to_array_from_lem k low [] bytes h = refl
uint64_to_array_from_lem k low (b ∷ bs) bytes h =
    let p : ℕ = 2 ^ (8 * k) in
    let first : (low + p * (b + 256 * value bs)) / p % 256 ≡ b =
      rw (add-mul-div_left low (b + 256 * value bs) {y = p} (omega arith), div-eq_of_lt h)
        (omega arith) in
    let split : low + p * (b + 256 * value bs) ≡ low + p * b + 2 ^ (8 * (k + 1)) * value bs =
      rw (pow_step k) (omega arith) in
    let below : low + p * b < 2 ^ (8 * (k + 1)) = rw (pow_step k) (grind arith) in
    let rest = uint64_to_array_from_lem (k + 1) (low + p * b) bs bytes.1 below in
    ap₂ (λ x xs. x ∷ xs) first (rw split rest)

-- Converting an array of at most eight bytes to a number and back gives the array again.
pub uint64_to_array-array_to_uint64 :
    (bs : List ℕ)
    → length bs ≤ 8
    → All IsByte bs
    → uint64_to_array (length bs) (array_to_uint64 bs) ≡ bs
unfolding uint64_to_array
uint64_to_array-array_to_uint64 bs short bytes =
    let at_zero : 0 + 2 ^ (8 * 0) * value bs ≡ value bs = omega arith in
    rw (array_to_uint64-value bs short bytes)
      (rw at_zero at (uint64_to_array_from_lem 0 0 bs bytes (omega arith)))

-- So two arrays of one length of at most eight bytes are equal if their numbers are.
pub array_to_uint64-injective :
    (xs ys : List ℕ)
    → length xs ≡ length ys
    → length ys ≤ 8
    → All IsByte xs
    → All IsByte ys
    → array_to_uint64 xs ≡ array_to_uint64 ys
    → xs ≡ ys
array_to_uint64-injective xs ys same short hx hy e =
    sym (uint64_to_array-array_to_uint64 xs (omega arith) hx)
    ∙ rw (e, same) (uint64_to_array-array_to_uint64 ys short hy)

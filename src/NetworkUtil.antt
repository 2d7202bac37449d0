-- ===== src/NetworkUtil.antt =====
-- src/Networking/E_NetworkUtil.cpp and include/E/Networking/E_NetworkUtil.hpp.
pub mod Checksum
pub mod Bytes
use kensv.Prelude.{
  ℕ, zero, suc, ◌+◌, ◌*◌, ◌/◌, ◌%◌, ◌^◌, Bool, true, false, not, List, [], ◌∷◌, ◌++◌, length, ltb,
  if◌then◌else◌,
}

-- `(sum & 0xFFFF) + (sum >> 16)` on a `uint32_t`.
unfoldable pub fold_carry : ℕ → ℕ
fold_carry sum = (sum % 2 ^ 16 + sum / 2 ^ 16) % 2 ^ 32

-- The loop of `one_sum`: a byte in an even place is the upper half of a 16-bit word.
unfoldable pub one_sum_loop : Bool → ℕ → List ℕ → ℕ
one_sum_loop upper sum [] = sum
one_sum_loop upper sum (b ∷ bs) =
    one_sum_loop (not upper) (fold_carry ((sum + (if upper then b * 2 ^ 8 else b)) % 2 ^ 32)) bs

unfoldable pub one_sum : List ℕ → ℕ
unfolding one_sum_loop fold_carry
one_sum buffer = fold_carry (one_sum_loop true 0 buffer) % 2 ^ 16

-- The bytes of a number in the order of a little-endian host, as many as `n`.
unfoldable pub le_bytes : ℕ → ℕ → List ℕ
le_bytes zero v = []
le_bytes (suc n) v = (v % 2 ^ 8) ∷ le_bytes n (v / 2 ^ 8)

-- `htons` on a little-endian host.
unfoldable pub htons : ℕ → ℕ
htons v = v % 2 ^ 8 * 2 ^ 8 + v / 2 ^ 8 % 2 ^ 8

-- `struct pseudoheader`, packed: both addresses are stored as they are given.
unfoldable pub pseudoheader : ℕ → ℕ → ℕ → List ℕ
unfolding le_bytes htons
pseudoheader source dest len =
    le_bytes 4 source ++ (le_bytes 4 dest ++ (0 ∷ 6 ∷ le_bytes 2 (htons (len % 2 ^ 16))))

unfoldable pub tcp_sum : ℕ → ℕ → List ℕ → ℕ
tcp_sum source dest tcp_seg =
    if ltb (length tcp_seg) 20
    then 0
    else let sum = one_sum (pseudoheader source dest (length tcp_seg)) in
      fold_carry ((sum + one_sum tcp_seg) % 2 ^ 32) % 2 ^ 16

-- `UINT64ToArray<N>`: `array[k] = (val >> (8 * k)) & 0xFF`, from `k` on.
unfoldable pub uint64_to_array_from : ℕ → ℕ → ℕ → List ℕ
uint64_to_array_from zero k val = []
uint64_to_array_from (suc n) k val =
    (val / 2 ^ (8 * k) % 2 ^ 8) ∷ uint64_to_array_from n (k + 1) val

unfoldable pub uint64_to_array : ℕ → ℕ → List ℕ
unfolding uint64_to_array_from
uint64_to_array n val = uint64_to_array_from n 0 val

-- `arrayToUINT64<N>`: the loop over `k`, with its `uint64_t` sum.
unfoldable pub array_to_uint64_from : ℕ → ℕ → List ℕ → ℕ
array_to_uint64_from k sum [] = sum
array_to_uint64_from k sum (b ∷ bs) =
    array_to_uint64_from (k + 1) ((sum + b * 2 ^ (8 * k)) % 2 ^ 64) bs

unfoldable pub array_to_uint64 : List ℕ → ℕ
unfolding array_to_uint64_from
array_to_uint64 bs = array_to_uint64_from 0 0 bs

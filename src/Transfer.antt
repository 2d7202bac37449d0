-- ===== src/Transfer.antt =====
-- app/kens/testtransfer.cpp: the loops of the applications that test a transfer, from the first draw to
-- the check of EXPECT_SIZE. The calls `write` and `read`, the random engine and the state `S` that the
-- calls change are arguments; a result below 0 is `none`.
pub mod Rounds
pub mod Sender
pub mod Reading
pub mod Receiver
pub mod Spins
use kensv.Prelude.{
  ℕ, zero, suc, ◌+◌, ◌-◌, ◌%◌, ◌^◌, Bool, true, false, not, ◌&&◌, Option, none, some, List, [], ◌∷◌,
  ◌++◌, length, drop, ltb, leb, ◌==◌,
}

-- `unexpected` is an expectation of the test that fails, or a signed number that overflows.
pub data Outcome {ℓ} (A : Type ℓ) : Type ℓ where
  finished : A → Outcome A
  unexpected out_of_fuel : Outcome A

infixl 5 ◌>>=◌ ◌>>◌
abbrev pub ◌>>=◌ {ℓ κ} : {A : Type ℓ} {B : Type κ} → Outcome A → (A → Outcome B) → Outcome B
finished a >>= f = f a
unexpected >>= f = unexpected
out_of_fuel >>= f = out_of_fuel

abbrev pub ◌>>◌ {ℓ} : {B : Type ℓ} → Outcome (Unit {0}) → Outcome B → Outcome B
m >> k = m >>= λ _. k

abbrev pub expect : Bool → Outcome (Unit {0})
expect true = finished tt
expect false = unexpected

-- `a + b` in a signed type whose numbers are below the limit.
abbrev pub add_below : (limit a b : ℕ) → Outcome ℕ
add_below limit a b = expect (ltb (a + b) limit) >> finished (a + b)

-- The loop that fills `send_buffer`, whose elements are bytes.
unfoldable pub fill {ℓ} : {G : Type ℓ} → (G → G × ℕ) → ℕ → G → G × List ℕ
fill rand_d zero g = (g, [])
fill rand_d (suc n) g =
    let (g₁, x) = rand_d g in let (g₂, xs) = fill rand_d n g₁ in (g₂, x % 2 ^ 8 ∷ xs)

-- The comparison of what was received with the start of `send_buffer`.
unfoldable pub same_start : (received send_buffer : List ℕ) → Bool
same_start [] bs = true
same_start (r ∷ rs) [] = false
same_start (r ∷ rs) (b ∷ bs) = (b == r) && same_start rs bs

-- The loop around `write`, up to the test of `write_byte`: the state, `total_size`, and whether the last
-- call failed.
unfoldable pub write_loop {ℓ} :
    {S : Type ℓ}
    → (write : List ℕ → S → S × Option ℕ) → (calls : ℕ) → (send_buffer : List ℕ)
    → (remaining total_size : ℕ) → S
    → Outcome (S × ℕ × Bool)
write_loop write zero send_buffer remaining total_size s = out_of_fuel
write_loop write (suc calls) send_buffer remaining total_size s =
    let (s', write_byte) = write (drop (length send_buffer - remaining) send_buffer) s in
    elim write_byte [
      | none ↦ finished (s', total_size, true)
      | some n ↦ (do
        total ← add_below (2 ^ 63) total_size n
        expect (leb n remaining)
        elim (remaining - n == 0) [
          | true ↦ finished (s', total, false)
          | false ↦ write_loop write calls send_buffer (remaining - n) total s'
        ])
    ]

-- The loop around `read`; `received` is the part of `recv_buffer` that was filled.
unfoldable pub read_loop {ℓ} :
    {S : Type ℓ}
    → (read : ℕ → S → S × Option (List ℕ)) → (calls : ℕ) → (received : List ℕ)
    → (remaining total_size : ℕ) → S
    → Outcome (S × List ℕ × ℕ × Bool)
read_loop read zero received remaining total_size s = out_of_fuel
read_loop read (suc calls) received remaining total_size s =
    let (s', read_byte) = read remaining s in
    elim read_byte [
      | none ↦ finished (s', received, total_size, true)
      | some bytes ↦ (do
        total ← add_below (2 ^ 63) total_size (length bytes)
        expect (leb (length bytes) remaining)
        elim (remaining - length bytes == 0) [
          | true ↦ finished (s', received ++ bytes, total, false)
          | false ↦ read_loop read calls (received ++ bytes) (remaining - length bytes) total s'
        ])
    ]

-- One round with the buffer that was drawn, by `is_send`.
unfoldable pub round {ℓ} :
    {S : Type ℓ}
    → (write : List ℕ → S → S × Option ℕ) → (read : ℕ → S → S × Option (List ℕ)) → (calls : ℕ)
    → (is_send : Bool) → (send_buffer : List ℕ) → (total_size : ℕ) → S
    → Outcome (S × ℕ × Bool)
round write read calls is_send send_buffer total_size s = elim is_send [
  | true ↦ write_loop write calls send_buffer (length send_buffer) total_size s
  | false ↦ (do
    (s', received, total, failed) ← read_loop read calls [] (length send_buffer) total_size s
    expect (same_start received send_buffer)
    finished (s', total, failed))
]

-- The test after `loop++`.
unfoldable pub is_last : (loop_count loop : ℕ) → Bool
is_last loop_count loop = not (loop_count == 0) && leb loop_count loop

module _ {ℓ κ} {S : Type ℓ} {G : Type κ} (write : List ℕ → S → S × Option ℕ)
    (read : ℕ → S → S × Option (List ℕ)) (rand_d : G → G × ℕ) where
  -- The outer loop, which nothing but its breaks leaves: `total_size` at its end.
  unfoldable pub transfer :
      (calls rounds : ℕ)
      → (is_send : Bool) → (buffer_size loop_count loop total_size : ℕ) → G
      → S
      → Outcome (S × ℕ)
  transfer calls zero is_send buffer_size loop_count loop total_size g s = out_of_fuel
  transfer calls (suc rounds) is_send buffer_size loop_count loop total_size g s =
      let (g', send_buffer) = fill rand_d buffer_size g in
      do
        (s', total, failed) ← round write read calls is_send send_buffer total_size s
        elim failed [
          | true ↦ finished (s', total)
          | false ↦ (do
            next ← add_below (2 ^ 31) loop 1
            elim (is_last loop_count next) [
              | true ↦ finished (s', total)
              | false ↦ transfer calls rounds is_send buffer_size loop_count next total g' s'
            ])
        ]

  -- The transfer, with the check of its size.
  unfoldable pub transfer_test :
      (calls rounds : ℕ)
      → (is_send : Bool) → (buffer_size loop_count expect_size : ℕ) → G
      → S
      → Outcome S
  transfer_test calls rounds is_send buffer_size loop_count expect_size g s = do
    (s', total) ← transfer calls rounds is_send buffer_size loop_count 0 0 g s
    expect (expect_size == total)
    finished s'

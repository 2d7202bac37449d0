-- ===== src/Tests/Transfers.antt =====
-- A transfer of two buffers of three bytes, byte by byte.
use kensv.Prelude.{
  ℕ, ◌+◌, ◌<◌, ◌≤◌, length, take, ◌≡◌, refl, true, false, Option, some, List, [], ◌∷◌, ◌++◌, arith,
}
use kensv.Transfer.{out_of_fuel, finished, fill, transfer_test}
use kensv.Transfer.Rounds.{stream}
use kensv.Transfer.Sender.{Writes, sender_sends}
use kensv.Transfer.Reading.{Reads}
use kensv.Transfer.Receiver.{receiver_accepts}
use kensv.Transfer.Spins.{Ends, never_returns}

abbrev write_one : List ℕ → List ℕ → List ℕ × Option ℕ
write_one [] s = (s, some 0)
write_one (x ∷ bytes) s = (s ++ x ∷ [], some 1)

abbrev read_one : ℕ → List ℕ → List ℕ × Option (List ℕ)
read_one n [] = ([], some [])
read_one n (x ∷ s) = (s, some (x ∷ []))

abbrev counter : ℕ → ℕ × ℕ
counter g = (g + 1, g)

write_one-Writes : Writes write_one (λ s. s)
write_one-Writes = record { takes = takes }
  where
    takes :
        (bytes s : List ℕ)
        → 0 < length bytes
        → (s' : List ℕ) × (n : ℕ) × (write_one bytes s ≡ (s', some n))
          × (0 < n)
          × (n ≤ length bytes)
          × (s' ≡ s ++ take n bytes)
    takes [] s some_byte = absurd (omega arith)
    takes (x ∷ bytes) s some_byte = (s ++ x ∷ [], 1, refl, omega arith, omega arith, refl)

read_one-Reads : Reads read_one (λ s. s)
read_one-Reads = record { yields = yields }
  where
    yields :
        (n : ℕ) (s : List ℕ)
        → 0 < n
        → 0 < length s
        → (s' bytes : List ℕ) × (read_one n s ≡ (s', some bytes))
          × (0 < length bytes)
          × (length bytes ≤ n)
          × (s ≡ bytes ++ s')
    yields n [] some_left some_byte = absurd (omega arith)
    yields n (x ∷ s) some_left some_byte = (s, x ∷ [], refl, omega arith, omega arith, refl)

read_one-Ends : Ends read_one (λ s. s)
read_one-Ends n [] e = ([], refl, refl)
read_one-Ends n (x ∷ s) e = cc

sender_sends_example :
    (s' : List ℕ) × (transfer_test write_one read_one counter 3 2 true 3 2 6 0 [] ≡ finished s')
    × (s' ≡ [] ++ stream counter 2 3 0)
sender_sends_example =
    sender_sends write_one read_one counter (λ s. s) 3 2 3 2 0 [] write_one-Writes (omega arith)
      (omega arith) (omega arith) (omega arith) (omega arith) (omega arith)

receiver_accepts_example :
    (s' : List ℕ) × (transfer_test write_one read_one counter 4 3 false 3 2 6 0
        (0 ∷ 1 ∷ 2 ∷ 3 ∷ 4 ∷ 5 ∷ [])
      ≡ finished s')
unfolding stream fill
receiver_accepts_example =
    receiver_accepts write_one read_one counter (λ s. s) 4 3 3 2 0 (0 ∷ 1 ∷ 2 ∷ 3 ∷ 4 ∷ 5 ∷ [])
      read_one-Reads (omega arith) (omega arith) (omega arith) (omega arith) (omega arith)
      (omega arith) refl

never_returns_example :
    transfer_test write_one read_one counter 40 30 false 3 0 5 0 (0 ∷ 1 ∷ 2 ∷ 3 ∷ 4 ∷ [])
    ≡ out_of_fuel
unfolding stream fill
never_returns_example =
    never_returns write_one read_one counter (λ s. s) 40 30 3 2 5 0 (0 ∷ 1 ∷ 2 ∷ 3 ∷ 4 ∷ [])
      (5 ∷ []) read_one-Reads read_one-Ends (omega arith) (omega arith) (omega arith) refl

-- ===== src/Transfer/Sender.antt =====
-- The sender of app/kens/testtransfer.cpp, on a `write` that takes a part of what it is given.
use kensv.Prelude.{
  ℕ, zero, suc, ◌+◌, ◌-◌, ◌*◌, ◌^◌, ◌≤◌, ◌<◌, ◌≡◌, refl, sym, ap, ◌∙◌, inl, inr, true, false,
  Option, some, List, [], ◌∷◌, ◌++◌, length, take, drop, ltb, leb, ◌==◌, length-drop,
  take-append-drop, take_all, Bool-cases, arith,
}
use mathlib.Core.List.{append_assoc, append-nil}
use kensv.Transfer.Rounds.{stream, length-fill, transfer_ends, transfer_goes_on}
use kensv.Transfer.{finished, fill, write_loop, round, is_last, transfer, transfer_test}

-- A `write` of a connection that is not closed: it takes at least one of the bytes that it is given, from their start,
-- and adds them to what was `sent`.
pub record Writes {ℓ} {S : Type ℓ} (write : List ℕ → S → S × Option ℕ) (sent : S → List ℕ)
    : Type ℓ where
  pub takes :
      (bytes : List ℕ) (s : S)
      → 0 < length bytes
      → (s' : S) × (n : ℕ) × (write bytes s ≡ (s', some n))
        × (0 < n)
        × (n ≤ length bytes)
        × (sent s' ≡ sent s ++ take n bytes)

drop_nil {ℓ} : {A : Type ℓ} (n : ℕ) → drop {A = A} n [] ≡ []
drop_nil zero = refl
drop_nil (suc n) = refl

pub drop-drop {ℓ} : {A : Type ℓ} (n m : ℕ) (xs : List A) → drop n (drop m xs) ≡ drop (m + n) xs
drop-drop n zero xs = ap (λ k. drop k xs) (omega arith)
drop-drop n (suc m) [] = drop_nil n ∙ sym (drop_nil (suc m + n))
drop-drop n (suc m) (x ∷ xs) =
    let e : suc (m + n) ≡ suc m + n = omega arith in drop-drop n m xs ∙ ap (λ k. drop k (x ∷ xs)) e

split_rest :
    (a buffer : List ℕ) (remaining n : ℕ)
    → n ≤ remaining
    → remaining ≤ length buffer
    → (a ++ take n (drop (length buffer - remaining) buffer))
        ++ drop (length buffer - (remaining - n)) buffer
      ≡ a ++ drop (length buffer - remaining) buffer
split_rest a buffer remaining n less inside =
    let rest = drop (length buffer - remaining) buffer in
    append_assoc a (take n rest) (drop (length buffer - (remaining - n)) buffer)
    ∙ ap (λ t. a ++ (take n rest ++ t))
        (ap (λ k. drop k buffer) (omega arith)
          ∙ sym (drop-drop n (length buffer - remaining) buffer))
    ∙ ap (λ t. a ++ t) (take-append-drop n rest)

module _ {ℓ} {S : Type ℓ} (write : List ℕ → S → S × Option ℕ) where
  -- One call of `write`, that takes all that is left or less.
  write_last :
      (calls : ℕ) (buffer : List ℕ) (remaining total n : ℕ) (s s' : S)
      → write (drop (length buffer - remaining) buffer) s ≡ (s', some n)
      → total + n < 2 ^ 63
      → n ≡ remaining
      → write_loop write (suc calls) buffer remaining total s ≡ finished (s', total + n, false)
  unfolding write_loop
  write_last calls buffer remaining total n s s' run room all =
      let fits : ltb (total + n) (2 ^ 63) ≡ true = ground arith in
      let less : leb n remaining ≡ true = ground arith in
      let last : (remaining - n == 0) ≡ true = ground arith in
      rw (write_loop, ap (λ r. r.1) run, fits, less, last)
        (ap (λ r. finished (r.0, total + n, false)) run)

  write_more :
      (calls : ℕ) (buffer : List ℕ) (remaining total n : ℕ) (s s' : S)
      → write (drop (length buffer - remaining) buffer) s ≡ (s', some n)
      → total + n < 2 ^ 63
      → n < remaining
      → write_loop write (suc calls) buffer remaining total s
        ≡ write_loop write calls buffer (remaining - n) (total + n) s'
  unfolding write_loop
  write_more calls buffer remaining total n s s' run room fewer =
      let fits : ltb (total + n) (2 ^ 63) ≡ true = ground arith in
      let less : leb n remaining ≡ true = ground arith in
      let more : (remaining - n == 0) ≡ false = ground arith in
      rw (write_loop, ap (λ r. r.1) run, fits, less, more)
        (ap (λ r. write_loop write calls buffer (remaining - n) (total + n) r.0) run)

module _ {ℓ} {S : Type ℓ} (write : List ℕ → S → S × Option ℕ) (sent : S → List ℕ)
    (writes : Writes write sent) where
  -- The end of the buffer is sent.
  write_loop_lem :
      (calls : ℕ) (buffer : List ℕ) (remaining total : ℕ) (s : S)
      → 0 < remaining
      → remaining ≤ length buffer
      → remaining ≤ calls
      → total + remaining < 2 ^ 63
      → (s' : S) × (write_loop write calls buffer remaining total s
          ≡ finished (s', total + remaining, false))
        × (sent s' ≡ sent s ++ drop (length buffer - remaining) buffer)
  write_loop_lem zero buffer remaining total s some_left inside fuel room = absurd (omega arith)
  write_loop_lem (suc calls) buffer remaining total s some_left inside fuel room =
      let size = length-drop (length buffer - remaining) buffer in
      let (s', n, run, n_pos, n_le, grown) =
        writes.takes (drop (length buffer - remaining) buffer) s (omega (arith, size)) in
      elim (Bool-cases (ltb n remaining)) [
        | inl more ↦
            let (s'', ran, sent'') =
              write_loop_lem calls buffer (remaining - n) (total + n) s' (ground arith)
                (omega arith) (omega arith) (ground arith) in
            (
              s'',
              write_more write calls buffer remaining total n s s' run (ground arith) (ground arith)
                  ∙ ran
                  ∙ ap (λ t. finished (s'', t, false)) (ground arith),
              sent''
                  ∙ ap (λ t. t ++ drop (length buffer - (remaining - n)) buffer) grown
                  ∙ split_rest (sent s) buffer remaining n (ground arith) inside,
            )
        | inr last ↦ (
          s',
          write_last write calls buffer remaining total n s s' run (ground (arith, size))
                (ground (arith, size))
              ∙ ap (λ t. finished (s', t, false)) (ground (arith, size)),
          grown ∙ ap (λ t. sent s ++ t) (take_all n _ (ground (arith, size))),
        )
      ]

module _ {ℓ κ} {S : Type ℓ} {G : Type κ} (write : List ℕ → S → S × Option ℕ)
    (read : ℕ → S → S × Option (List ℕ)) (rand_d : G → G × ℕ) (sent : S → List ℕ)
    (writes : Writes write sent) (calls size : ℕ) (some_byte : 0 < size)
    (enough : size ≤ calls) where
  -- One round sends its buffer.
  round_sends :
      (total : ℕ) (g : G) (s : S)
      → total + size < 2 ^ 63
      → (s' : S) × (round write read calls true (fill rand_d size g).1 total s
          ≡ finished (s', total + size, false))
        × (sent s' ≡ sent s ++ (fill rand_d size g).1)
  unfolding round
  round_sends total g s room =
      let buffer = (fill rand_d size g).1 in
      let n = length-fill rand_d size g in
      let (s', run, grown) =
        write_loop_lem write sent writes calls buffer (length buffer) total s (omega (arith, n))
          (omega arith) (omega (arith, n)) (omega (arith, n)) in
      let none_left : length buffer - length buffer ≡ 0 = omega arith in
      (
        s',
        run ∙ ap (λ t. finished (s', total + t, false)) n,
        grown ∙ ap (λ t. sent s ++ drop t buffer) none_left,
      )

  sends :
      (k rounds count loop total : ℕ) (g : G) (s : S)
      → suc k ≤ rounds
      → loop + suc k ≡ count
      → count < 2 ^ 31
      → total + suc k * size < 2 ^ 63
      → (s' : S) × (transfer write read rand_d calls rounds true size count loop total g s
          ≡ finished (s', total + suc k * size))
        × (sent s' ≡ sent s ++ stream rand_d (suc k) size g)
  unfolding stream is_last
  sends k zero count loop total g s fuel counted small room = absurd (omega arith)
  sends zero (suc rounds) count loop total g s fuel counted small room =
      let (s', run, grown) = round_sends total g s (omega arith) in
      (
        s',
        transfer_ends write read rand_d calls rounds true size count loop total g s s'
              (total + size) run (omega arith) (ground arith)
            ∙ ap (λ t. finished (s', t)) (omega arith),
        grown ∙ ap (λ t. sent s ++ t) (sym (append-nil _)),
      )
  sends (suc k) (suc rounds) count loop total g s fuel counted small room =
      let (s', run, grown) = round_sends total g s (omega arith) in
      let (s'', runs, all) =
        sends k rounds count (loop + 1) (total + size) (fill rand_d size g).0 s' (omega arith)
          (omega arith) small (omega arith) in
      (
        s'',
        transfer_goes_on write read rand_d calls rounds true size count loop total g s s'
              (total + size) run (omega arith) (ground arith)
            ∙ runs
            ∙ ap (λ t. finished (s'', t)) (omega arith),
        all
            ∙ ap (λ t. t ++ stream rand_d (suc k) size (fill rand_d size g).0) grown
            ∙ append_assoc (sent s) (fill rand_d size g).1 _,
      )

-- The sender of a transfer of `loop_count` buffers, on a connection that takes a part of each `write`,
-- with fuel for `loop_count` rounds and `buffer_size` calls in each: the application returns, all
-- expectations hold, and the buffers are sent in their order, with no byte lost or repeated.
pub sender_sends {ℓ κ} :
    {S : Type ℓ} {G : Type κ} (write : List ℕ → S → S × Option ℕ)
    (read : ℕ → S → S × Option (List ℕ)) (rand_d : G → G × ℕ) (sent : S → List ℕ)
    (calls rounds buffer_size loop_count : ℕ) (g : G) (s : S)
    → Writes write sent
    → 0 < buffer_size
    → 0 < loop_count
    → buffer_size ≤ calls
    → loop_count ≤ rounds
    → loop_count < 2 ^ 31
    → loop_count * buffer_size < 2 ^ 63
    → (s' : S) × (transfer_test write read rand_d calls rounds true buffer_size loop_count
          (loop_count * buffer_size)
          g
          s
        ≡ finished s')
      × (sent s' ≡ sent s ++ stream rand_d loop_count buffer_size g)
unfolding transfer_test
sender_sends write read rand_d sent calls rounds buffer_size zero g s writes some_byte some_loop
      enough_calls enough_rounds loops size =
    absurd (omega arith)
sender_sends write read rand_d sent calls rounds buffer_size (suc k) g s writes some_byte some_loop
      enough_calls enough_rounds loops size =
    let (s', run, grown) =
      sends write read rand_d sent writes calls buffer_size some_byte enough_calls k rounds (suc k)
        0 0 g s enough_rounds (omega arith) loops (omega (arith)) in
    let same : (suc k * buffer_size == 0 + suc k * buffer_size) ≡ true = ground arith in
    (s', rw (run, same) refl, grown)

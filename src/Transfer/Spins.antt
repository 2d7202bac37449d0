-- ===== src/Transfer/Spins.antt =====
-- The receiver of app/kens/testtransfer.cpp without a loop count, on a `read` that yields 0 at the end of
-- the stream, as Documentation/man/read.2.txt says.
use kensv.Prelude.{
  ℕ, zero, suc, ◌+◌, ◌-◌, ◌^◌, ◌<◌, ◌≡◌, refl, sym, ap, ◌∙◌, ◌⊎◌, inl, inr, true, false, Option,
  some, List, [], ◌∷◌, ◌++◌, length, get_or, drop, ltb, ◌==◌, length-append, Bool-cases, arith,
}
use mathlib.Core.List.{append_assoc}
use kensv.Transfer.Rounds.{stream, length-fill, transfer_goes_on}
use kensv.Transfer.Reading.{Reads, nil_of_length, read_last, read_more}
use kensv.Transfer.{
  out_of_fuel, finished, fill, same_start, read_loop, round, is_last, transfer, transfer_test,
}

-- A `read` whose result is 0 at the end of the stream, where it stays.
abbrev pub Ends {ℓ} : {S : Type ℓ} → (ℕ → S → S × Option (List ℕ)) → (S → List ℕ) → Type ℓ
Ends {S = S} read unread =
    (n : ℕ) (s : S) → unread s ≡ [] → (s' : S) × (read n s ≡ (s', some [])) × (unread s' ≡ [])

-- Two ways to cut a list at the same place.
halves :
    (xs ys us vs : List ℕ)
    → xs ++ us ≡ ys ++ vs
    → length xs ≡ length ys
    → (same_start xs ys ≡ true) × (us ≡ vs)
unfolding same_start
halves [] [] us vs e lens = (refl, e)
halves [] (y ∷ ys) us vs e lens = absurd (omega arith)
halves (x ∷ xs) [] us vs e lens = absurd (omega arith)
halves (x ∷ xs) (y ∷ ys) us vs e lens =
    let heads : x ≡ y = ap (λ l. get_or l 0 0) e in
    let test : (y == x) ≡ true = ground arith in
    let (same, on) = halves xs ys us vs (ap (drop 1) e) (omega arith) in (rw (test, same) refl, on)

module _ {ℓ} {S : Type ℓ} (read : ℕ → S → S × Option (List ℕ)) (unread : S → List ℕ)
    (reads : Reads read unread) (ends : Ends read unread) where
  -- The loop gets all the bytes that it waits for, or it does not end.
  abbrev Waits : (calls : ℕ) → (received : List ℕ) → (remaining total : ℕ) → S → Type ℓ
  Waits calls received remaining total s =
      (read_loop read calls received remaining total s ≡ out_of_fuel)
      ⊎ ((s' : S) × (bytes : List ℕ) × (read_loop read calls received remaining total s
            ≡ finished (s', received ++ bytes, total + length bytes, false))
          × (length bytes ≡ remaining)
          × (unread s ≡ bytes ++ unread s'))

  Waits-more :
      (calls : ℕ) (received bytes : List ℕ) (remaining total : ℕ) (s s' : S)
      → read remaining s ≡ (s', some bytes)
      → total + length bytes < 2 ^ 63
      → length bytes < remaining
      → unread s ≡ bytes ++ unread s'
      → Waits calls (received ++ bytes) (remaining - length bytes) (total + length bytes) s'
      → Waits (suc calls) received remaining total s
  Waits-more calls received bytes remaining total s s' run room fewer split (inl spins) =
      inl (read_more read calls received bytes remaining total s s' run room fewer ∙ spins)
  Waits-more calls received bytes remaining total s s' run room fewer split
        (inr (s'', more, ends_so, all, split')) =
      let sum : total + length bytes + length more ≡ total + length (bytes ++ more) =
        omega (arith, length-append bytes more) in
      inr (
        s'',
        bytes ++ more,
        read_more read calls received bytes remaining total s s' run room fewer
            ∙ ends_so
            ∙ ap (λ r. finished (s'', r, total + length bytes + length more, false))
                (append_assoc received bytes more)
            ∙ ap (λ t. finished (s'', received ++ (bytes ++ more), t, false)) sum,
        omega (arith, length-append bytes more),
        split ∙ ap (λ u. bytes ++ u) split' ∙ sym (append_assoc bytes more (unread s'')),
      )

  read_loop-Waits :
      (calls : ℕ) (received : List ℕ) (remaining total : ℕ) (s : S)
      → 0 < remaining
      → total + length (unread s) < 2 ^ 63
      → Waits calls received remaining total s
  unfolding read_loop
  read_loop-Waits zero received remaining total s some_left room = inl refl
  read_loop-Waits (suc calls) received remaining total s some_left room =
      elim (Bool-cases (ltb 0 (length (unread s)))) [
        | inl bytes_left ↦
            let (s', bytes, run, some_byte, inside, split) =
              reads.yields remaining s some_left (ground arith) in
            let size : length (unread s) ≡ length bytes + length (unread s') =
              ap length split ∙ length-append bytes (unread s') in
            elim (Bool-cases (ltb (length bytes) remaining)) [
              | inl fewer ↦
                  Waits-more calls received bytes remaining total s s' run (omega (arith, size))
                    (ground arith) split
                    (read_loop-Waits calls (received ++ bytes) (remaining - length bytes)
                      (total + length bytes) s' (ground arith) (omega (arith, size)))
              | inr all ↦
                  let whole : length bytes ≡ remaining = ground arith in
                  inr (
                    s',
                    bytes,
                    read_last read calls received bytes remaining total s s' run
                        (omega (arith, size)) whole,
                    whole,
                    split,
                  )
            ]
        | inr closed ↦
            let no_rest = nil_of_length (unread s) (ground arith) in
            let (s', run, none_left) = ends remaining s no_rest in
            let nothing : length (unread s') ≡ 0 = ap length none_left in
            Waits-more calls received [] remaining total s s' run (omega arith) (omega arith)
              (no_rest ∙ sym none_left)
              (read_loop-Waits calls (received ++ []) (remaining - 0) (total + 0) s' (omega arith)
                (omega (arith, nothing)))
      ]

module _ {ℓ κ} {S : Type ℓ} {G : Type κ} (write : List ℕ → S → S × Option ℕ)
    (read : ℕ → S → S × Option (List ℕ)) (rand_d : G → G × ℕ) (unread : S → List ℕ)
    (reads : Reads read unread) (ends : Ends read unread) (calls size : ℕ)
    (some_byte : 0 < size) where
  round_spins :
      (buffer : List ℕ) (total : ℕ) (s : S)
      → length buffer ≡ size
      → read_loop read calls [] size total s ≡ out_of_fuel
      → round write read calls false buffer total s ≡ out_of_fuel
  unfolding round
  round_spins buffer total s lens spins = rw (lens, spins) refl

  round_gets :
      (buffer bytes : List ℕ) (total : ℕ) (s s' : S)
      → length buffer ≡ size
      → read_loop read calls [] size total s ≡ finished (s', bytes, total + length bytes, false)
      → same_start bytes buffer ≡ true
      → round write read calls false buffer total s ≡ finished (s', total + length bytes, false)
  unfolding round
  round_gets buffer bytes total s s' lens gets same = rw (lens, gets, same) refl

  transfer_spins :
      (rounds loop total : ℕ) (g : G) (s : S)
      → round write read calls false (fill rand_d size g).1 total s ≡ out_of_fuel
      → transfer write read rand_d calls (suc rounds) false size 0 loop total g s ≡ out_of_fuel
  unfolding transfer
  transfer_spins rounds loop total g s spins = rw (transfer, spins) refl

  spins :
      (k rounds loop total : ℕ) (g : G) (s : S) (rest : List ℕ)
      → loop + k < 2 ^ 31
      → total + length (unread s) < 2 ^ 63
      → unread s ++ rest ≡ stream rand_d k size g
      → transfer write read rand_d calls rounds false size 0 loop total g s ≡ out_of_fuel
  unfolding transfer stream is_last
  spins k zero loop total g s rest small room agrees = refl
  spins zero (suc rounds) loop total g s rest small room agrees =
      elim (read_loop-Waits read unread reads ends calls [] size total s some_byte room) [
        | inl waits ↦
            transfer_spins rounds loop total g s
              (round_spins (fill rand_d size g).1 total s (length-fill rand_d size g) waits)
        | inr (s', bytes, gets, whole, split) ↦ absurd (
            omega (
              arith,
              ap length agrees,
              length-append (unread s) rest,
              ap length split,
              length-append bytes (unread s'),
            ))
      ]
  spins (suc k) (suc rounds) loop total g s rest small room agrees =
      let buffer = (fill rand_d size g).1 in
      let more = stream rand_d k size (fill rand_d size g).0 in
      let lens = length-fill rand_d size g in
      elim (read_loop-Waits read unread reads ends calls [] size total s some_byte room) [
        | inl waits ↦ transfer_spins rounds loop total g s (round_spins buffer total s lens waits)
        | inr (s', bytes, gets, whole, split) ↦
            let joined : bytes ++ (unread s' ++ rest) ≡ buffer ++ more =
              sym (append_assoc bytes (unread s') rest)
              ∙ ap (λ u. u ++ rest) (sym split)
              ∙ agrees in
            let (same, on) =
              halves bytes buffer (unread s' ++ rest) more joined (whole ∙ sym lens) in
            let size_left : length (unread s) ≡ length bytes + length (unread s') =
              ap length split ∙ length-append bytes (unread s') in
            transfer_goes_on write read rand_d calls rounds false size 0 loop total g s s'
              (total + length bytes) (round_gets buffer bytes total s s' lens gets same)
              (omega arith) refl
            ∙ spins k rounds (loop + 1) (total + length bytes) (fill rand_d size g).0 s' rest
                (omega arith) (omega (arith, size_left)) on
      ]

-- Without a count, on a stream that is what the sender draws, or the start of it, the receiver never returns if
-- the result of `read` is 0 at the end of the stream: however many rounds and calls are allowed, it takes all of them, and no
-- expectation fails before.
pub never_returns {ℓ κ} :
    {S : Type ℓ} {G : Type κ} (write : List ℕ → S → S × Option ℕ)
    (read : ℕ → S → S × Option (List ℕ)) (rand_d : G → G × ℕ) (unread : S → List ℕ)
    (calls rounds buffer_size buffers expect_size : ℕ) (g : G) (s : S) (rest : List ℕ)
    → Reads read unread
    → Ends read unread
    → 0 < buffer_size
    → buffers < 2 ^ 31
    → length (unread s) < 2 ^ 63
    → unread s ++ rest ≡ stream rand_d buffers buffer_size g
    → transfer_test write read rand_d calls rounds false buffer_size 0 expect_size g s ≡ out_of_fuel
unfolding transfer_test
never_returns write read rand_d unread calls rounds buffer_size buffers expect_size g s rest reads
      ends some_byte small room agrees =
    rw
      (spins write read rand_d unread reads ends calls buffer_size some_byte buffers rounds 0 0 g s
        rest (omega arith) (omega arith) agrees)
      refl

-- ===== src/Transfer/Reading.antt =====
-- The loop around `read` of app/kens/testtransfer.cpp, on a `read` that hands out a stream in parts.
use kensv.Prelude.{
  ℕ, zero, suc, ◌+◌, ◌-◌, ◌^◌, ◌≤◌, ◌<◌, ◌≡◌, refl, sym, ap, subst, ◌∙◌, ◌⊎◌, inl, inr, true, false,
  Option, none, some, List, [], ◌∷◌, ◌++◌, length, take, drop, ltb, leb, ◌==◌, length-append,
  Bool-cases, arith,
}
use mathlib.Core.List.{append_assoc, append-nil}
use kensv.Transfer.{finished, read_loop}

-- A `read` of a connection with a rest that is `unread`: it yields at least one of its bytes, from their start,
-- and not more than it is asked for.
pub record Reads {ℓ} {S : Type ℓ} (read : ℕ → S → S × Option (List ℕ)) (unread : S → List ℕ)
    : Type ℓ where
  pub yields :
      (n : ℕ) (s : S)
      → 0 < n
      → 0 < length (unread s)
      → (s' : S) × (bytes : List ℕ) × (read n s ≡ (s', some bytes))
        × (0 < length bytes)
        × (length bytes ≤ n)
        × (unread s ≡ bytes ++ unread s')

-- A `read` whose result is below 0 at the end of the stream.
abbrev pub Fails {ℓ} : {S : Type ℓ} → (ℕ → S → S × Option (List ℕ)) → (S → List ℕ) → Type ℓ
Fails {S = S} read unread =
    (n : ℕ) (s : S) → unread s ≡ [] → (s' : S) × (read n s ≡ (s', none)) × (unread s' ≡ [])

module _ {ℓ} {A : Type ℓ} where
  pub nil_of_length : (xs : List A) → length xs ≡ 0 → xs ≡ []
  nil_of_length [] e = refl
  nil_of_length (x ∷ xs) e = absurd (omega arith)

  take_past :
      (n : ℕ) (xs ys : List A) → length xs ≤ n → take n (xs ++ ys) ≡ xs ++ take (n - length xs) ys
  take_past n [] ys less = ap (λ k. take k ys) (omega arith)
  take_past zero (x ∷ xs) ys less = absurd (omega arith)
  take_past (suc n) (x ∷ xs) ys less =
      let e : n - length xs ≡ suc n - suc (length xs) = omega arith in
      ap (λ t. x ∷ t) (take_past n xs ys (omega arith) ∙ ap (λ k. xs ++ take k ys) e)

  drop_past : (n : ℕ) (xs ys : List A) → length xs ≤ n → drop n (xs ++ ys) ≡ drop (n - length xs) ys
  drop_past n [] ys less = ap (λ k. drop k ys) (omega arith)
  drop_past zero (x ∷ xs) ys less = absurd (omega arith)
  drop_past (suc n) (x ∷ xs) ys less =
      let e : n - length xs ≡ suc n - suc (length xs) = omega arith in
      drop_past n xs ys (omega arith) ∙ ap (λ k. drop k ys) e

module _ {ℓ} {S : Type ℓ} (read : ℕ → S → S × Option (List ℕ)) where
  -- One call of `read`, that yields all that is left or less.
  pub read_last :
      (calls : ℕ) (received bytes : List ℕ) (remaining total : ℕ) (s s' : S)
      → read remaining s ≡ (s', some bytes)
      → total + length bytes < 2 ^ 63
      → length bytes ≡ remaining
      → read_loop read (suc calls) received remaining total s
        ≡ finished (s', received ++ bytes, total + length bytes, false)
  unfolding read_loop
  read_last calls received bytes remaining total s s' run room all =
      let fits : ltb (total + length bytes) (2 ^ 63) ≡ true = ground arith in
      let less : leb (length bytes) remaining ≡ true = ground arith in
      let last : (remaining - length bytes == 0) ≡ true = ground arith in
      rw (read_loop, ap (λ r. r.1) run, fits, less, last)
        (ap (λ r. finished (r.0, received ++ bytes, total + length bytes, false)) run)

  pub read_more :
      (calls : ℕ) (received bytes : List ℕ) (remaining total : ℕ) (s s' : S)
      → read remaining s ≡ (s', some bytes)
      → total + length bytes < 2 ^ 63
      → length bytes < remaining
      → read_loop read (suc calls) received remaining total s
        ≡ read_loop read calls
            (received ++ bytes)
            (remaining - length bytes)
            (total + length bytes)
            s'
  unfolding read_loop
  read_more calls received bytes remaining total s s' run room fewer =
      let fits : ltb (total + length bytes) (2 ^ 63) ≡ true = ground arith in
      let less : leb (length bytes) remaining ≡ true = ground arith in
      let more : (remaining - length bytes == 0) ≡ false = ground arith in
      rw (read_loop, ap (λ r. r.1) run, fits, less, more)
        (ap
          (λ r.
            read_loop read calls (received ++ bytes) (remaining - length bytes)
              (total + length bytes) r.0)
          run)

  read_end :
      (calls : ℕ) (received : List ℕ) (remaining total : ℕ) (s s' : S)
      → read remaining s ≡ (s', none)
      → read_loop read (suc calls) received remaining total s ≡ finished (s', received, total, true)
  unfolding read_loop
  read_end calls received remaining total s s' run =
      rw (read_loop, ap (λ r. r.1) run) (ap (λ r. finished (r.0, received, total, true)) run)

module _ {ℓ} {S : Type ℓ} (read : ℕ → S → S × Option (List ℕ)) (unread : S → List ℕ)
    (reads : Reads read unread) where
  -- What the loop ends with, when `u` is unread.
  abbrev pub Fills : (calls : ℕ) → (received : List ℕ) → (remaining total : ℕ) → S → List ℕ → Type ℓ
  Fills calls received remaining total s u =
      (s' : S) × (read_loop read calls received remaining total s
        ≡ finished (
          s',
          received ++ take remaining u,
          total + length (take remaining u),
          ltb (length u) remaining,
        ))
      × (unread s' ≡ drop remaining u)

  Fills-closed :
      (calls : ℕ) (received : List ℕ) (remaining total : ℕ) (s s' : S)
      → 0 < remaining
      → read remaining s ≡ (s', none)
      → unread s' ≡ []
      → Fills (suc calls) received remaining total s []
  Fills-closed calls received zero total s s' some_left run none_left = absurd (omega arith)
  Fills-closed calls received (suc n) total s s' some_left run none_left =
      let less : true ≡ ltb 0 (suc n) = ground arith in
      let start : received ≡ received ++ [] = sym (append-nil received) in
      let sum : total ≡ total + 0 = omega arith in
      (
        s',
        read_end read calls received (suc n) total s s' run
            ∙ ap (λ r. finished (s', r, total, true)) start
            ∙ ap (λ t. finished (s', received ++ [], t, true)) sum
            ∙ ap (λ b. finished (s', received ++ [], total + 0, b)) less,
        none_left,
      )

  Fills-last :
      (calls : ℕ) (received bytes rest : List ℕ) (remaining total : ℕ) (s s' : S)
      → read remaining s ≡ (s', some bytes)
      → unread s' ≡ rest
      → total + length bytes < 2 ^ 63
      → remaining ≡ length bytes
      → Fills (suc calls) received remaining total s (bytes ++ rest)
  Fills-last calls received bytes rest remaining total s s' run left room all =
      let none_over : remaining - length bytes ≡ 0 = omega arith in
      let taken : take remaining (bytes ++ rest) ≡ bytes =
        take_past remaining bytes rest (omega arith)
        ∙ ap (λ k. bytes ++ take k rest) none_over
        ∙ append-nil bytes in
      let gone : drop remaining (bytes ++ rest) ≡ rest =
        drop_past remaining bytes rest (omega arith) ∙ ap (λ k. drop k rest) none_over in
      let full : ltb (length (bytes ++ rest)) remaining ≡ false =
        ground (arith, length-append bytes rest) in
      rw (taken, gone, full)
        (s', read_last read calls received bytes remaining total s s' run room (omega arith), left)

  Fills-more :
      (calls : ℕ) (received bytes rest : List ℕ) (remaining total : ℕ) (s s' : S)
      → read remaining s ≡ (s', some bytes)
      → total + length bytes < 2 ^ 63
      → length bytes < remaining
      → Fills calls (received ++ bytes) (remaining - length bytes) (total + length bytes) s' rest
      → Fills (suc calls) received remaining total s (bytes ++ rest)
  Fills-more calls received bytes rest remaining total s s' run room fewer (s'', runs, left) =
      let taken = take_past remaining bytes rest (omega arith) in
      let gone = drop_past remaining bytes rest (omega arith) in
      let full : ltb (length rest) (remaining - length bytes)
          ≡ ltb (length (bytes ++ rest)) remaining =
        ground (arith, length-append bytes rest) in
      let more = take (remaining - length bytes) rest in
      let sum : total + length bytes + length more ≡ total + length (bytes ++ more) =
        omega (arith, length-append bytes more) in
      rw (taken, gone)
        (
          s'',
          read_more read calls received bytes remaining total s s' run room fewer
              ∙ runs
              ∙ ap
                  (λ r. finished (
                    s'',
                    r,
                    total + length bytes + length more,
                    ltb (length rest) (remaining - length bytes),
                  ))
                  (append_assoc received bytes more)
              ∙ ap
                  (λ t. finished (
                    s'',
                    received ++ (bytes ++ more),
                    t,
                    ltb (length rest) (remaining - length bytes),
                  ))
                  sum
              ∙ ap
                  (λ b.
                    finished (s'', received ++ (bytes ++ more), total + length (bytes ++ more), b))
                  full,
          left,
        )

  -- The loop is given bytes enough, or an end that it notices.
  pub read_loop_lem :
      (calls : ℕ) (received : List ℕ) (remaining total : ℕ) (s : S)
      → 0 < remaining
      → remaining < calls
      → total + length (unread s) < 2 ^ 63
      → (remaining ≤ length (unread s)) ⊎ Fails read unread
      → Fills calls received remaining total s (unread s)
  read_loop_lem zero received remaining total s some_left fuel room ends = absurd (omega arith)
  read_loop_lem (suc calls) received remaining total s some_left fuel room ends =
      elim (Bool-cases (ltb 0 (length (unread s)))) [
        | inl bytes_left ↦
            let (s', bytes, run, some_byte, inside, split) =
              reads.yields remaining s some_left (ground arith) in
            let size : length (unread s) ≡ length bytes + length (unread s') =
              ap length split ∙ length-append bytes (unread s') in
            subst (Fills (suc calls) received remaining total s) (sym split)
              (elim (Bool-cases (ltb (length bytes) remaining)) [
                | inl fewer ↦
                    Fills-more calls received bytes (unread s') remaining total s s' run
                      (omega (arith, size)) (ground arith)
                      (read_loop_lem calls (received ++ bytes) (remaining - length bytes)
                        (total + length bytes) s' (ground arith) (omega arith) (omega (arith, size))
                        (elim ends [
                          | inl more ↦ inl (omega (arith, size))
                          | inr fails ↦ inr fails
                        ]))
                | inr all ↦
                    Fills-last calls received bytes (unread s') remaining total s s' run refl
                      (omega (arith, size)) (ground arith)
              ])
        | inr closed ↦
            let no_rest = nil_of_length (unread s) (ground arith) in
            elim ends [
              | inl more ↦ absurd (omega (arith, ap length no_rest))
              | inr fails ↦
                  let (s', run, none_left) = fails remaining s no_rest in
                  subst (Fills (suc calls) received remaining total s) (sym no_rest)
                    (Fills-closed calls received remaining total s s' some_left run none_left)
            ]
      ]

-- ===== src/Transfer/Receiver.antt =====
-- The receiver of app/kens/testtransfer.cpp, on a `read` that hands out a stream of bytes in parts.
use kensv.Prelude.{
  ℕ, zero, suc, ◌+◌, ◌*◌, ◌^◌, ◌≤◌, ◌<◌, ◌≡◌, refl, sym, ap, subst, ◌∙◌, ◌⊎◌, inl, inr, true, false,
  Option, List, [], ◌∷◌, ◌++◌, length, get_or, take, drop, ltb, ◌==◌, length-append, length-drop,
  length-take, take_all, Bool-cases, arith, ◌-◌,
}
use mathlib.Core.List.{append-nil}
use kensv.Transfer.Rounds.{
  stream, length-fill, length-stream, transfer_stops, transfer_ends, transfer_goes_on,
}
use kensv.Transfer.Reading.{Reads, Fails, nil_of_length, read_loop_lem}
use kensv.Transfer.{finished, fill, same_start, round, is_last, transfer, transfer_test}

-- A prefix of what was drawn agrees with it.
pub same_start_lem :
    (u rest bs more : List ℕ) → u ++ rest ≡ bs ++ more → same_start (take (length bs) u) bs ≡ true
unfolding same_start
same_start_lem u rest [] more e = refl
same_start_lem [] rest (b ∷ bs) more e = refl
same_start_lem (x ∷ u) rest (b ∷ bs) more e =
    let heads : x ≡ b = ap (λ l. get_or l 0 0) e in
    let same : (b == x) ≡ true = ground arith in
    rw (same, same_start_lem u rest bs more (ap (drop 1) e)) refl

pub drop_both :
    (u rest bs more : List ℕ)
    → u ++ rest ≡ bs ++ more
    → length bs ≤ length u
    → drop (length bs) u ++ rest ≡ more
drop_both u rest [] more e inside = e
drop_both [] rest (b ∷ bs) more e inside = absurd (omega arith)
drop_both (x ∷ u) rest (b ∷ bs) more e inside =
    drop_both u rest bs more (ap (drop 1) e) (omega arith)

module _ {ℓ κ} {S : Type ℓ} {G : Type κ} (write : List ℕ → S → S × Option ℕ)
    (read : ℕ → S → S × Option (List ℕ)) (rand_d : G → G × ℕ) (unread : S → List ℕ)
    (reads : Reads read unread) (calls size : ℕ) (some_byte : 0 < size)
    (enough : size < calls) where
  round_receives :
      (total : ℕ) (g : G) (s : S) (rest more : List ℕ)
      → total + length (unread s) < 2 ^ 63
      → unread s ++ rest ≡ (fill rand_d size g).1 ++ more
      → (size ≤ length (unread s)) ⊎ Fails read unread
      → (s' : S) × (round write read calls false (fill rand_d size g).1 total s
          ≡ finished (s', total + length (take size (unread s)), ltb (length (unread s)) size))
        × (unread s' ≡ drop size (unread s))
  unfolding round
  round_receives total g s rest more room agrees ends =
      let buffer = (fill rand_d size g).1 in
      let (s', run, left) =
        read_loop_lem read unread reads calls [] size total s some_byte enough room ends in
      let same =
        subst (λ n. same_start (take n (unread s)) buffer ≡ true) (length-fill rand_d size g)
          (same_start_lem (unread s) rest buffer more agrees) in
      (s', rw (length-fill rand_d size g, run, same) refl, left)

  -- A break at the loop count comes with the last buffer.
  last_round :
      (k count loop n : ℕ) (rest more : List ℕ)
      → (count ≡ 0) ⊎ ((count ≡ loop + suc k) × (rest ≡ []))
      → length more ≡ k * size
      → is_last count (loop + 1) ≡ true
      → n + length rest ≡ size + length more
      → n ≡ size
  unfolding is_last
  last_round k count loop n rest more (inl unlimited) lens last sum = ground arith
  last_round zero count loop n rest more (inr (limit, none_more)) lens last sum =
      omega (arith, ap length none_more)
  last_round (suc k) count loop n rest more (inr (limit, none_more)) lens last sum = ground arith

  -- What the loop is left by: a `read` that fails, or the count of the rounds, at the end of the stream.
  abbrev Ending : (k count loop : ℕ) → List ℕ → Type ℓ
  Ending k count loop rest =
      (Fails read unread × (count ≡ 0)) ⊎ ((0 < k) × (count ≡ loop + k) × (rest ≡ []))

  forget :
      (k count loop : ℕ) (rest : List ℕ)
      → Ending (suc k) count loop rest
      → (count ≡ 0) ⊎ ((count ≡ loop + suc k) × (rest ≡ []))
  forget k count loop rest (inl (fails, unlimited)) = inl unlimited
  forget k count loop rest (inr (some_round, limit, none_more)) = inr (limit, none_more)

  rounds_left : (k count loop : ℕ) → count ≡ loop + suc k → is_last count (loop + 1) ≡ false → 0 < k
  unfolding is_last
  rounds_left k count loop limit more = ground arith

  receives :
      (k rounds count loop total : ℕ) (g : G) (s : S) (rest : List ℕ)
      → k < rounds
      → Ending k count loop rest
      → loop + k < 2 ^ 31
      → total + length (unread s) < 2 ^ 63
      → unread s ++ rest ≡ stream rand_d k size g
      → (s' : S) × (transfer write read rand_d calls rounds false size count loop total g s
          ≡ finished (s', total + length (unread s)))
  unfolding stream is_last
  receives k zero count loop total g s rest fuel counted small room agrees = absurd (omega arith)
  receives zero (suc rounds) count loop total g s rest fuel (inr (some_round, limit, none_more))
        small room agrees =
      absurd (omega arith)
  receives zero (suc rounds) count loop total g s rest fuel (inl (fails, unlimited)) small room
        agrees =
      let size_of_nothing = ap length agrees in
      let none_left =
        nil_of_length (unread s) (omega (arith, size_of_nothing, length-append (unread s) rest)) in
      let start =
        ap (λ u. u ++ (fill rand_d size g).1) none_left ∙ sym (append-nil (fill rand_d size g).1) in
      let (s', run, left) =
        round_receives total g s (fill rand_d size g).1 [] room start (inr fails) in
      let short : ltb (length (unread s)) size ≡ true = ground arith in
      let e =
        ap (λ u. total + length u)
          (take_all size (unread s) (omega (arith, ap length none_left))) in
      (
        s',
        transfer_stops write read rand_d calls rounds false size count loop total g s s'
              (total + length (take size (unread s)))
              (run ∙ ap (λ b. finished (s', total + length (take size (unread s)), b)) short)
            ∙ ap (λ t. finished (s', t)) e,
      )
  receives (suc k) (suc rounds) count loop total g s rest fuel counted small room agrees =
      let more_to_come = stream rand_d k size (fill rand_d size g).0 in
      let buffer = (fill rand_d size g).1 in
      let sizes : length (unread s) + length rest ≡ size + length more_to_come = omega (
        arith,
        ap length agrees,
        length-append (unread s) rest,
        length-append buffer more_to_come,
        length-fill rand_d size g,
      ) in
      let ends : (size ≤ length (unread s)) ⊎ Fails read unread = elim counted [
        | inl (fails, unlimited) ↦ inr fails
        | inr (some_round, limit, none_more) ↦ inl (omega (arith, sizes, ap length none_more))
      ] in
      let (s', run, left) = round_receives total g s rest more_to_come room agrees ends in
      elim (Bool-cases (ltb (length (unread s)) size)) [
        | inl short ↦
            let e = ap (λ u. total + length u) (take_all size (unread s) (ground arith)) in
            (
              s',
              transfer_stops write read rand_d calls rounds false size count loop total g s s'
                    (total + length (take size (unread s)))
                    (run ∙ ap (λ b. finished (s', total + length (take size (unread s)), b)) short)
                  ∙ ap (λ t. finished (s', t)) e,
            )
        | inr full ↦
            let taken = length-take size (unread s) in
            let left_over = length-drop size (unread s) in
            let size_left : length (unread s') ≡ length (unread s) - size =
              omega (arith, ap length left, left_over) in
            elim (Bool-cases (is_last count (loop + 1))) [
              | inl last ↦
                  let whole : length (unread s) ≡ size =
                    last_round k count loop (length (unread s)) rest
                      (stream rand_d k size (fill rand_d size g).0)
                      (forget k count loop rest counted)
                      (length-stream rand_d k size (fill rand_d size g).0) last sizes in
                  (
                    s',
                    transfer_ends write read rand_d calls rounds false size count loop total g s s'
                          (total + length (take size (unread s)))
                          (run
                            ∙ ap (λ b. finished (s', total + length (take size (unread s)), b))
                                full)
                          (omega arith) last
                        ∙ ap (λ t. finished (s', total + t))
                            (ap length (take_all size (unread s) (omega (arith, whole)))),
                  )
              | inr more ↦
                  let agrees' =
                    ap (λ u. u ++ rest)
                      (left ∙ ap (λ n. drop n (unread s)) (sym (length-fill rand_d size g)))
                    ∙ drop_both (unread s) rest buffer more_to_come agrees
                        (ground (arith, length-fill rand_d size g)) in
                  let counted' : Ending k count (loop + 1) rest = elim counted [
                    | inl unlimited ↦ inl unlimited
                    | inr (some_round, limit, none_more) ↦
                        inr (rounds_left k count loop limit more, omega arith, none_more)
                  ] in
                  let sum : total + length (take size (unread s)) + length (unread s')
                      ≡ total + length (unread s) =
                    ground (arith, taken, size_left) in
                  let (s'', runs) =
                    receives k rounds count (loop + 1) (total + length (take size (unread s)))
                      (fill rand_d size g).0 s' rest (omega arith) counted' (omega arith)
                      (ground (arith, taken, size_left)) agrees' in
                  (
                    s'',
                    transfer_goes_on write read rand_d calls rounds false size count loop total g s
                          s' (total + length (take size (unread s)))
                          (run
                            ∙ ap (λ b. finished (s', total + length (take size (unread s)), b))
                                full)
                          (omega arith) more
                        ∙ runs
                        ∙ ap (λ t. finished (s'', t)) sum,
                  )
            ]
      ]

-- The receiver of a transfer, on a connection that hands out a stream in parts, which is what the
-- sender draws from the same seed, with the number of buffers as its `loop_count`: it
-- returns, every byte agrees with the buffer that is drawn in its round, and the size is that of the stream,
-- however `read` cuts it, and whatever `read` does at the end of the stream, which it does not come to. The fuel is for one round more than there are buffers, and one call more than there are bytes in one.
pub receiver_accepts {ℓ κ} :
    {S : Type ℓ} {G : Type κ} (write : List ℕ → S → S × Option ℕ)
    (read : ℕ → S → S × Option (List ℕ)) (rand_d : G → G × ℕ) (unread : S → List ℕ)
    (calls rounds buffer_size buffers : ℕ) (g : G) (s : S)
    → Reads read unread
    → 0 < buffer_size
    → buffer_size < calls
    → 0 < buffers
    → buffers < rounds
    → buffers < 2 ^ 31
    → length (unread s) < 2 ^ 63
    → unread s ≡ stream rand_d buffers buffer_size g
    → (s' : S) × (transfer_test write read rand_d calls rounds false buffer_size buffers
          (length (unread s))
          g
          s
        ≡ finished s')
unfolding transfer_test
receiver_accepts write read rand_d unread calls rounds buffer_size buffers g s reads some_byte
      enough some_buffer fuel small room agrees =
    let (s', run) =
      receives write read rand_d unread reads calls buffer_size some_byte enough buffers rounds
        buffers 0 0 g s [] fuel (inr (some_buffer, omega arith, refl)) (omega arith) (omega arith)
        (append-nil (unread s) ∙ agrees) in
    let same : (length (unread s) == 0 + length (unread s)) ≡ true = ground arith in
    (s', rw (run, same) refl)

-- Without a count, on a stream that is the start of what the sender draws, the receiver returns too, if
-- `read` fails at the end of the stream.
pub receiver_accepts_failing {ℓ κ} :
    {S : Type ℓ} {G : Type κ} (write : List ℕ → S → S × Option ℕ)
    (read : ℕ → S → S × Option (List ℕ)) (rand_d : G → G × ℕ) (unread : S → List ℕ)
    (calls rounds buffer_size buffers : ℕ) (g : G) (s : S) (rest : List ℕ)
    → Reads read unread
    → Fails read unread
    → 0 < buffer_size
    → buffer_size < calls
    → buffers < rounds
    → buffers < 2 ^ 31
    → length (unread s) < 2 ^ 63
    → unread s ++ rest ≡ stream rand_d buffers buffer_size g
    → (s' : S) × (transfer_test write read rand_d calls rounds false buffer_size 0
          (length (unread s))
          g
          s
        ≡ finished s')
unfolding transfer_test
receiver_accepts_failing write read rand_d unread calls rounds buffer_size buffers g s rest reads
      fails some_byte enough fuel small room agrees =
    let (s', run) =
      receives write read rand_d unread reads calls buffer_size some_byte enough buffers rounds 0 0
        0 g s rest fuel (inl (fails, refl)) (omega arith) (omega arith) agrees in
    let same : (length (unread s) == 0 + length (unread s)) ≡ true = ground arith in
    (s', rw (run, same) refl)

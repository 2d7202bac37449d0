-- ===== src/Transfer/Rounds.antt =====
-- The outer loop of app/kens/testtransfer.cpp, round by round.
use kensv.Prelude.{
  ℕ, zero, suc, ◌+◌, ◌*◌, ◌^◌, ◌<◌, ◌≡◌, refl, ap, Bool, true, false, Option, List, [], ◌++◌,
  length, length-append, ltb, arith,
}
use kensv.Transfer.{Outcome, finished, fill, round, is_last, transfer}

-- The buffers of the next rounds, one after the other.
unfoldable pub stream {ℓ} : {G : Type ℓ} → (G → G × ℕ) → (rounds buffer_size : ℕ) → G → List ℕ
stream rand_d zero buffer_size g = []
stream rand_d (suc k) buffer_size g =
    let (g', bytes) = fill rand_d buffer_size g in bytes ++ stream rand_d k buffer_size g'

pub length-fill {ℓ} :
    {G : Type ℓ} (rand_d : G → G × ℕ) (n : ℕ) (g : G) → length (fill rand_d n g).1 ≡ n
unfolding fill
length-fill rand_d zero g = refl
length-fill rand_d (suc n) g = ap suc (length-fill rand_d n (rand_d g).0)

pub length-stream {ℓ} :
    {G : Type ℓ} (rand_d : G → G × ℕ) (k n : ℕ) (g : G) → length (stream rand_d k n g) ≡ k * n
unfolding stream
length-stream rand_d zero n g = omega arith
length-stream rand_d (suc k) n g =
    let g' = (fill rand_d n g).0 in
    let bytes = (fill rand_d n g).1 in
    omega (
      arith,
      length-append bytes (stream rand_d k n g'),
      length-fill rand_d n g,
      length-stream rand_d k n g',
    )

module _ {ℓ κ} {S : Type ℓ} {G : Type κ} (write : List ℕ → S → S × Option ℕ)
    (read : ℕ → S → S × Option (List ℕ)) (rand_d : G → G × ℕ) (calls rounds : ℕ) (is_send : Bool)
    (size count loop total : ℕ) (g : G) (s : S) where
  -- What is done after `loop++`, by its test.
  abbrev goes_on : S → ℕ → Bool → Outcome (S × ℕ)
  goes_on s' total' true = finished (s', total')
  goes_on s' total' false =
      transfer write read rand_d calls rounds is_send size count (loop + 1) total'
        (fill rand_d size g).0 s'

  -- Three ends of a round: the break of a failed call, that of the last round, and none.
  pub transfer_stops :
      (s' : S) (total' : ℕ)
      → round write read calls is_send (fill rand_d size g).1 total s ≡ finished (s', total', true)
      → transfer write read rand_d calls (suc rounds) is_send size count loop total g s
        ≡ finished (s', total')
  unfolding transfer
  transfer_stops s' total' run = rw (transfer, run) refl

  pub transfer_ends :
      (s' : S) (total' : ℕ)
      → round write read calls is_send (fill rand_d size g).1 total s ≡ finished (s', total', false)
      → loop + 1 < 2 ^ 31
      → is_last count (loop + 1) ≡ true
      → transfer write read rand_d calls (suc rounds) is_send size count loop total g s
        ≡ finished (s', total')
  unfolding transfer
  transfer_ends s' total' run small last =
      let fits : ltb (loop + 1) (2 ^ 31) ≡ true = ground arith in
      rw (transfer, run, fits) (ap (goes_on s' total') last)

  pub transfer_goes_on :
      (s' : S) (total' : ℕ)
      → round write read calls is_send (fill rand_d size g).1 total s ≡ finished (s', total', false)
      → loop + 1 < 2 ^ 31
      → is_last count (loop + 1) ≡ false
      → transfer write read rand_d calls (suc rounds) is_send size count loop total g s
        ≡ transfer write read rand_d calls rounds is_send size count
            (loop + 1)
            total'
            (fill rand_d size g).0
            s'
  unfolding transfer
  transfer_goes_on s' total' run small more =
      let fits : ltb (loop + 1) (2 ^ 31) ≡ true = ground arith in
      rw (transfer, run, fits) (ap (goes_on s' total') more)

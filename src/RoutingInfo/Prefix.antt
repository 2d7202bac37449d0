-- ===== src/RoutingInfo/Prefix.antt =====
-- The comparison of a routing entry with an address is the comparison of their leading bits.
use Prim.Native.Nat.{bit_and}
use native.Mathlib.Nat.{div-div-eq-div-mul}
use kensv.Prelude.{
  ℕ, zero, suc, ◌+◌, ◌-◌, ◌*◌, ◌/◌, ◌%◌, ◌^◌, ◌≤◌, ◌<◌, ◌≡◌, refl, ap, sym, ◌∙◌, inl, inr, Bool,
  true, ◌&&◌, some, List, [], ◌∷◌, length, All, ltb, ◌==◌, if◌then◌else◌, ==_iff, Bool-cases, arith,
}
use kensv.Prelude.Below.{all_below, all_below_lem}
use kensv.NetworkUtil.Checksum.{IsByte}
use kensv.RoutingInfo.{RouteEntry, full_mask, parts_match, entry_matches}

mask_table :
    all_below 8 (λ r. all_below 256 (λ x. bit_and x (full_mask r) == x / 2 ^ (8 - r) * 2 ^ (8 - r)))
    ≡ true
unfolding all_below full_mask
mask_table = refl

-- Masking a byte keeps its `r` leading bits.
bit_and-full_mask :
    (r x : ℕ) → r < 8 → x < 256 → bit_and x (full_mask r) ≡ x / 2 ^ (8 - r) * 2 ^ (8 - r)
bit_and-full_mask r x hr hx =
    (==_iff _ _).0 (all_below_lem 256 _ x (all_below_lem 8 _ r mask_table hr) hx)

pow_table :
    all_below 4 (λ k. all_below 8 (λ r. 2 ^ (24 - 8 * k) * 2 ^ (8 - r) == 2 ^ (32 - (8 * k + r))))
    ≡ true
unfolding all_below
pow_table = refl

-- Shifting out the bits behind a prefix, first by whole bytes and then by the rest.
shift_parts :
    (k r v : ℕ) → k < 4 → r < 8 → v / 2 ^ (24 - 8 * k) / 2 ^ (8 - r) ≡ v / 2 ^ (32 - (8 * k + r))
shift_parts k r v hk hr =
    div-div-eq-div-mul v (2 ^ (24 - 8 * k)) (2 ^ (8 - r))
    ∙ ap (◌/◌ v) ((==_iff _ _).0 (all_below_lem 8 _ r (all_below_lem 4 _ k pow_table hk) hr))

-- The last byte of a prefix and the bytes before it.
last_byte :
    (r h x h' y : ℕ)
    → r < 8
    → x < 256
    → y < 256
    → ((h * 256 + x) / 2 ^ (8 - r) == (h' * 256 + y) / 2 ^ (8 - r))
      ≡ ((h == h') && (x / 2 ^ (8 - r) * 2 ^ (8 - r) == y / 2 ^ (8 - r) * 2 ^ (8 - r)))
last_byte zero h x h' y hr hx hy = ground arith
last_byte (suc zero) h x h' y hr hx hy = ground arith
last_byte (suc (suc zero)) h x h' y hr hx hy = ground arith
last_byte (suc (suc (suc zero))) h x h' y hr hx hy = ground arith
last_byte (suc (suc (suc (suc zero)))) h x h' y hr hx hy = ground arith
last_byte (suc (suc (suc (suc (suc zero))))) h x h' y hr hx hy = ground arith
last_byte (suc (suc (suc (suc (suc (suc zero)))))) h x h' y hr hx hy = ground arith
last_byte (suc (suc (suc (suc (suc (suc (suc zero))))))) h x h' y hr hx hy = ground arith
last_byte (suc (suc (suc (suc (suc (suc (suc (suc r)))))))) h x h' y hr hx hy = absurd (omega arith)

-- The comparison of the last, partial byte; with no bits left it compares nothing.
last_part :
    (r x y : ℕ) (whole : Bool)
    → r < 8
    → x < 256
    → y < 256
    → (if ltb 0 r
        then some (whole && (bit_and x (full_mask r) == bit_and y (full_mask r)))
        else some whole)
      ≡ some (whole && (x / 2 ^ (8 - r) * 2 ^ (8 - r) == y / 2 ^ (8 - r) * 2 ^ (8 - r)))
last_part zero x y whole hr hx hy = ground arith
last_part (suc r) x y whole hr hx hy =
    rw (bit_and-full_mask (suc r) x hr hx, bit_and-full_mask (suc r) y hr hy) (ground arith)

-- An IPv4 address as a number, its first byte the highest.
abbrev pub big_endian : ℕ → List ℕ → ℕ
big_endian n [] = n
big_endian n (b ∷ bs) = big_endian (n * 256 + b) bs

abbrev pub IsIpv4 : List ℕ → Type 0
IsIpv4 ip = (length ip ≡ 4) × All IsByte ip

-- The first `n` bits of an address.
abbrev pub leading : ℕ → List ℕ → ℕ
leading n ip = big_endian 0 ip / 2 ^ (32 - n)

-- From the bytes before the last one (`h`, `h'`) and the last one to the bits of the address.
compare_parts :
    (k r : ℕ) (whole : Bool) (h x h' y v v' : ℕ)
    → k < 4
    → r < 8
    → x < 256
    → y < 256
    → v / 2 ^ (24 - 8 * k) ≡ h * 256 + x
    → v' / 2 ^ (24 - 8 * k) ≡ h' * 256 + y
    → whole ≡ (h == h')
    → (if ltb 0 r
        then some (whole && (bit_and x (full_mask r) == bit_and y (full_mask r)))
        else some whole)
      ≡ some (v / 2 ^ (32 - (8 * k + r)) == v' / 2 ^ (32 - (8 * k + r)))
compare_parts k r whole h x h' y v v' hk hr hx hy e e' w =
    last_part r x y whole hr hx hy
    ∙ ap some (
        rw (w, ← shift_parts k r v hk hr, ← shift_parts k r v' hk hr, e, e')
          (sym (last_byte r h x h' y hr hx hy)))

parts_match_lem :
    (k r a b c d a' b' c' d' : ℕ)
    → let ip = a ∷ b ∷ c ∷ d ∷ [] in
      let mask = a' ∷ b' ∷ c' ∷ d' ∷ [] in
      All IsByte ip
      → All IsByte mask
      → k < 4
      → r < 8
      → parts_match k r ip mask ≡ some (leading (8 * k + r) ip == leading (8 * k + r) mask)
unfolding parts_match
parts_match_lem zero r a b c d a' b' c' d' h h' hk hr =
    compare_parts 0 r true 0 a 0 a' _ _ hk hr h.0 h'.0 (omega arith) (omega arith) refl
parts_match_lem (suc zero) r a b c d a' b' c' d' h h' hk hr =
    compare_parts 1 r _ a b a' b' _ _ hk hr h.1.0 h'.1.0 (omega arith) (omega arith) (ground arith)
parts_match_lem (suc (suc zero)) r a b c d a' b' c' d' h h' hk hr =
    compare_parts 2 r _ (a * 256 + b) c (a' * 256 + b') c' _ _ hk hr h.1.1.0 h'.1.1.0 (omega arith)
      (omega arith) (ground arith)
parts_match_lem (suc (suc (suc zero))) r a b c d a' b' c' d' h h' hk hr =
    compare_parts 3 r _ ((a * 256 + b) * 256 + c) d ((a' * 256 + b') * 256 + c') d' _ _ hk hr
      h.1.1.1.0 h'.1.1.1.0 (omega arith) (omega arith) (ground arith)
parts_match_lem (suc (suc (suc (suc k)))) r a b c d a' b' c' d' h h' hk hr = absurd (omega arith)

full_match_lem :
    (ip mask : List ℕ)
    → IsIpv4 ip
    → IsIpv4 mask
    → parts_match 4 0 ip mask ≡ some (leading 32 ip == leading 32 mask)
unfolding parts_match
full_match_lem (a ∷ b ∷ c ∷ d ∷ []) (a' ∷ b' ∷ c' ∷ d' ∷ []) h h' = ground arith
full_match_lem _ _ h h' = absurd (omega arith)

partial_match_lem :
    (n : ℕ) (ip mask : List ℕ)
    → n < 32
    → IsIpv4 ip
    → IsIpv4 mask
    → parts_match (n / 8) (n % 8) ip mask ≡ some (leading n ip == leading n mask)
partial_match_lem n (a ∷ b ∷ c ∷ d ∷ []) (a' ∷ b' ∷ c' ∷ d' ∷ []) small h h' =
    let whole : 8 * (n / 8) + n % 8 ≡ n = omega arith in
    rw whole at
      (parts_match_lem (n / 8) (n % 8) a b c d a' b' c' d' h.1 h'.1 (omega arith) (omega arith))
partial_match_lem n _ _ small h h' = absurd (omega arith)

-- For an address of four bytes and an entry of four bytes and a prefix length up to 32, the
-- comparison does not leave the arrays, and the entry matches exactly when the address and the
-- mask agree in that many leading bits.
pub entry_matches_lem :
    (ip : List ℕ) (e : RouteEntry)
    → IsIpv4 ip
    → IsIpv4 e.ip_mask
    → e.prefix ≤ 32
    → entry_matches ip e ≡ some (leading e.prefix ip == leading e.prefix e.ip_mask)
unfolding entry_matches
entry_matches_lem ip e h h' small = elim (Bool-cases (ltb e.prefix 32)) [
  | inl short ↦ partial_match_lem e.prefix ip e.ip_mask (ground arith) h h'
  | inr long ↦ let full : e.prefix ≡ 32 = ground arith in rw full (full_match_lem ip e.ip_mask h h')
]

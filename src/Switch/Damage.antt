-- ===== src/Switch/Damage.antt =====
-- The damage to a lost packet, which always succeeds and keeps the size.
use kensv.Prelude.{
  ℕ, ◌≡◌, refl, ◌∙◌, inl, inr, some, List, [], ◌∷◌, length, take, drop, arith, leb, ◌==◌,
  if◌then◌else◌, Bool-cases,
}
use kensv.NetworkUtil.{array_to_uint64}
use kensv.Packet.{Packet, get_size, splice}
use kensv.Packet.Buffer.{length-splice}
use kensv.Ipv4.Header.{write_fits, read_then}
use kensv.Switch.{damage}

pub damage-some :
    (p : Packet) → (q : Packet) × (damage p ≡ some q) × (length q.buffer ≡ length p.buffer)
unfolding damage get_size
damage-some p = elim (Bool-cases (leb 58 (length p.buffer))) [
  | inl long ↦
      let new : List ℕ =
        (if array_to_uint64 (take 4 (drop 54 p.buffer)) == 0xEEEEEEEE then 0xEF else 0xEE)
        ∷ 0xEE
        ∷ 0xEE
        ∷ 0xEE
        ∷ [] in
      (
        record p { buffer = splice 54 new p.buffer },
        rw long (read_then 54 4 p _ (ground arith) ∙ write_fits 54 new p (ground arith)),
        length-splice 54 new p.buffer (ground arith),
      )
  | inr short ↦ elim (Bool-cases (leb 54 (length p.buffer))) [
    | inl checked ↦
        let new : List ℕ =
          (if array_to_uint64 (take 2 (drop 50 p.buffer)) == 0xEEEE then 0xEF else 0xEE)
          ∷ 0xEE
          ∷ [] in
        (
          record p { buffer = splice 50 new p.buffer },
          rw (short, checked)
              (read_then 50 2 p _ (ground arith) ∙ write_fits 50 new p (ground arith)),
          length-splice 50 new p.buffer (ground arith),
        )
    | inr bare ↦ (p, rw (short, bare) refl, refl)
  ]
]

-- ===== src/Packet/Ids.antt =====
-- The ids of packets: `allocatePacketUUID` ends and gives out an id that is not in use.
use kensv.Prelude.{
  ℕ, zero, suc, ◌+◌, ◌-◌, ◌%◌, ◌^◌, ◌≤◌, ◌<◌, ◌≡◌, ◌≢◌, refl, sym, ◌∙◌, inl, inr, true, false,
  Option, some, List, length, ◌==◌, if◌then◌else◌, Bool-cases, arith,
}
use kensv.Prelude.NumSet.{member, insert, remove, member-insert, member-remove, length-remove-lt}
use kensv.Packet.{Packet, Allocator, search_uuid, allocate_packet_uuid, clone}

-- How many rounds the loop makes before it tries `k`.
abbrev round_of : ℕ → ℕ → ℕ
round_of start k = (k + 2 ^ 64 - start) % 2 ^ 64

-- An id is found, it was free, it is now in use, and the next search begins behind it.
pub record Allocates (a : Allocator) (result : Option (Allocator × ℕ)) : Type 0 where
  pub uuid : ℕ
  pub was_free : member uuid a.packet_uuid_set ≡ false
  pub in_range : uuid < 2 ^ 64
  pub finds :
      result
      ≡ some (
        record {
          packet_uuid_set = insert uuid a.packet_uuid_set;
          packet_uuid_start = (uuid + 1) % 2 ^ 64;
        },
        uuid,
      )

search_uuid-Allocates :
    (fuel d : ℕ) (a : Allocator) (rest : List ℕ)
    → a.packet_uuid_start < 2 ^ 64
    → length rest < fuel
    → length rest + d < 2 ^ 64
    → ((k : ℕ)
        → k < 2 ^ 64
        → d ≤ round_of a.packet_uuid_start k
        → member k a.packet_uuid_set ≡ member k rest)
    → Allocates a (search_uuid fuel ((a.packet_uuid_start + d) % 2 ^ 64) a)
unfolding search_uuid
search_uuid-Allocates zero d a rest h fits room tied = absurd (omega arith)
search_uuid-Allocates (suc fuel) d a rest h fits room tied =
    let c : ℕ = (a.packet_uuid_start + d) % 2 ^ 64 in
    let here : member c a.packet_uuid_set ≡ member c rest = tied c (omega arith) (omega arith) in
    elim (Bool-cases (member c a.packet_uuid_set)) [
      | inl taken ↦
          let shorter = length-remove-lt c rest (sym here ∙ taken) in
          let more =
            search_uuid-Allocates fuel (d + 1) a (remove c rest) h (omega arith) (omega arith)
              (λ k kh r. rw member-remove (ground (arith, tied k kh (omega arith)))) in
          let on : (c + 1) % 2 ^ 64 ≡ (a.packet_uuid_start + (d + 1)) % 2 ^ 64 = omega arith in
          let not_back : (a.packet_uuid_start + (d + 1)) % 2 ^ 64 ≢ a.packet_uuid_start =
            omega arith in
          let goes_on : ((a.packet_uuid_start + (d + 1)) % 2 ^ 64 == a.packet_uuid_start) ≡ false =
            ground arith in
          rw (taken, on, goes_on) more
      | inr free ↦ record { uuid = c; was_free = free; in_range = omega arith; finds = rw free }
    ]

-- While fewer than 2 ^ 64 ids are in use, and the search begins below 2 ^ 64, the search for an id
-- ends with one that was free and is now in use.
pub allocate_packet_uuid-Allocates :
    (a : Allocator)
    → a.packet_uuid_start < 2 ^ 64
    → length a.packet_uuid_set < 2 ^ 64
    → Allocates a (allocate_packet_uuid a)
unfolding allocate_packet_uuid
allocate_packet_uuid-Allocates a h room =
    let start : (a.packet_uuid_start + 0) % 2 ^ 64 ≡ a.packet_uuid_start = omega arith in
    rw start at (
      search_uuid-Allocates (length a.packet_uuid_set + 1) 0 a a.packet_uuid_set h (omega arith)
        (omega arith) (λ k _ _. refl))

-- While fewer than 2 ^ 64 ids are in use, and the search begins below 2 ^ 64, the clone of a
-- packet has the same bytes, under an id that was not registered and now is; no other id is
-- registered or freed.
pub clone_lem :
    (p : Packet) (a : Allocator)
    → a.packet_uuid_start < 2 ^ 64
    → length a.packet_uuid_set < 2 ^ 64
    → (a' : Allocator) × (q : Packet) × (clone p a ≡ some (a', q))
      × (q.buffer ≡ p.buffer)
      × (member q.packet_id a.packet_uuid_set ≡ false)
      × ((k : ℕ)
          → member k a'.packet_uuid_set
            ≡ (if q.packet_id == k then true else member k a.packet_uuid_set))
unfolding clone
clone_lem p a h room =
    let found = allocate_packet_uuid-Allocates a h room in
    (
      record {
        packet_uuid_set = insert found.uuid a.packet_uuid_set;
        packet_uuid_start = (found.uuid + 1) % 2 ^ 64;
      },
      record { buffer = p.buffer; packet_id = found.uuid },
      ground (arith, found.finds),
      refl,
      found.was_free,
      λ k. member-insert found.uuid k a.packet_uuid_set,
    )

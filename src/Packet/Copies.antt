-- ===== src/Packet/Copies.antt =====
-- A copy of a packet that is destroyed frees the id of its original.
use kensv.Prelude.{ℕ, ◌≡◌, refl, true, false, none, some, [], ◌∷◌, arith}
use kensv.Prelude.Table.{lookup, assign, erase, lookup-assign, lookup-erase}
use kensv.Prelude.NumSet.{member, member-remove}
use kensv.Packet.{Packet, free_packet_uuid}
use kensv.Packet.Objects.{Objects, copy_construct, destroy, apply, run, place, is_free}

is_free-none : (at : ℕ) (o : Objects) → lookup at o.packets ≡ none → is_free at o ≡ true
unfolding is_free
is_free-none at o free = rw (free, is_free) refl

apply-copy_construct :
    (at from : ℕ) (p : Packet) (o : Objects)
    → lookup at o.packets ≡ none
    → lookup from o.packets ≡ some p
    → apply (copy_construct at from) o ≡ some (place at p o)
unfolding apply
apply-copy_construct at from p o free found = rw (is_free-none at o free, apply) (rw found refl)

apply-destroy :
    (at : ℕ) (p : Packet) (o : Objects)
    → lookup at o.packets ≡ some p
    → apply (destroy at) o
      ≡ some (record {
        allocator = free_packet_uuid p.packet_id o.allocator;
        packets = erase at o.packets;
      })
unfolding apply
apply-destroy at p o found = rw found refl

-- Where a packet is alive and another address is free: the packet is copied there and the copy is
-- destroyed, and the packet is still alive, but its id is not in use any more.
pub destroyed_copy_frees :
    (at from : ℕ) (p : Packet) (o : Objects)
    → lookup at o.packets ≡ none
    → lookup from o.packets ≡ some p
    → (o' : Objects) × (run (copy_construct at from ∷ destroy at ∷ []) o ≡ some o')
      × (lookup from o'.packets ≡ some p)
      × (member p.packet_id o'.allocator.packet_uuid_set ≡ false)
unfolding run free_packet_uuid
destroyed_copy_frees at from p o free found =
    let copied : lookup at (assign at p o.packets) ≡ some p = rw lookup-assign (ground arith) in
    (
      record {
        allocator = free_packet_uuid p.packet_id o.allocator;
        packets = erase at (assign at p o.packets);
      },
      rw (apply-copy_construct at from p o free found, run)
          (rw (apply-destroy at p (place at p o) copied) refl),
      rw lookup-erase (rw lookup-assign (ground arith)),
      rw member-remove (ground arith),
    )

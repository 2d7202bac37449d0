-- ===== src/Tests/Packets.antt =====
-- A packet that is constructed, copied and cloned.
use kensv.Prelude.{ℕ, ◌≡◌, ◌≢◌, refl, some, List, [], ◌∷◌, false, arith}
use kensv.Prelude.Table.{lookup, assign, erase}
use kensv.Prelude.NumSet.{member, insert, remove}
use kensv.Packet.{
  Packet, Allocator, search_uuid, allocate_packet_uuid, new, clone, free_packet_uuid,
}
use kensv.Packet.Objects.{
  Objects, Op, construct, clones, copy_construct, destroy, apply, run, is_free,
}
use kensv.Packet.Lifetimes.{new_is_fresh}
use kensv.Packet.Copies.{destroyed_copy_frees}

abbrev some_ops : List Op
some_ops = construct 1 2 ∷ copy_construct 2 1 ∷ destroy 2 ∷ clones 3 1 ∷ []

abbrev original : Packet
original = record { buffer = 0 ∷ 0 ∷ []; packet_id = 0 }

abbrev cloned : Packet
cloned = record { buffer = 0 ∷ 0 ∷ []; packet_id = 1 }

abbrev objects : Objects
objects = record {
  allocator = record { packet_uuid_set = 1 ∷ []; packet_uuid_start = 2 };
  packets = (1, original) ∷ (3, cloned) ∷ [];
}

new_is_fresh_example :
    (a : Allocator) × (p : Packet) × (new 2 objects.allocator ≡ some (a, p))
    × (p.packet_id ≡ 2)
    × ((at : ℕ) (q : Packet) → lookup at objects.packets ≡ some q → q.packet_id ≢ p.packet_id)
unfolding run apply is_free new clone allocate_packet_uuid search_uuid free_packet_uuid lookup
    assign erase member insert remove
new_is_fresh_example = new_is_fresh some_ops 2 objects refl (omega arith)

destroyed_copy_frees_example :
    (o' : Objects) × (run (copy_construct 2 3 ∷ destroy 2 ∷ []) objects ≡ some o')
    × (lookup 3 o'.packets ≡ some cloned)
    × (member 1 o'.allocator.packet_uuid_set ≡ false)
unfolding lookup
destroyed_copy_frees_example = destroyed_copy_frees 2 3 cloned objects refl refl

-- ===== src/Packet/Objects.antt =====
-- src/Networking/E_Packet.cpp: packets as objects, with their constructors, assignments and
-- destructor. A copy has the id of its original, and each destructor frees the id of its object. A
-- buffer that was moved is empty.
use kensv.Prelude.{ℕ, ◌==◌, Bool, true, false, not, Option, none, some, List, [], ◌∷◌}
use kensv.Prelude.Maybe.{◌>>=◌, ◌>>◌, assert}
use kensv.Prelude.Table.{Table, lookup, assign, erase}
use kensv.Packet.{Packet, Allocator, new, clone, free_packet_uuid}

-- The objects that are alive, by address, with the static members of the class.
pub record Objects : Type 0 where
  pub allocator : Allocator
  pub packets : Table Packet

-- The operations, with the address of the new object or of the target first.
pub data Op : Type 0 where
  construct : (at size : ℕ) → Op
  clones : (at from : ℕ) → Op
  copy_construct : (at from : ℕ) → Op
  move_construct : (at from : ℕ) → Op
  copy_assign : (to from : ℕ) → Op
  move_assign : (to from : ℕ) → Op
  destroy : (at : ℕ) → Op

-- Whether no object has the address.
unfoldable pub is_free : ℕ → Objects → Bool
is_free at o = elim (lookup at o.packets) [ none ↦ true | some p ↦ false ]

abbrev pub place : ℕ → Packet → Objects → Objects
place at p o = record o { packets = assign at p o.packets }

-- What a packet is after its buffer was moved from.
abbrev pub moved_from : Packet → Packet
moved_from p = record p { buffer = [] }

-- One operation; `none` is an operation on an address that has no object, a construction at one
-- that has, and an allocation that fails.
unfoldable pub apply : Op → Objects → Option Objects
apply (construct at size) o = do
  assert (is_free at o)
  (a, p) ← new size o.allocator
  some (record { allocator = a; packets = assign at p o.packets })
apply (clones at from) o = do
  assert (is_free at o)
  source ← lookup from o.packets
  (a, p) ← clone source o.allocator
  some (record { allocator = a; packets = assign at p o.packets })
apply (copy_construct at from) o = do
  assert (is_free at o)
  source ← lookup from o.packets
  some (place at source o)
apply (move_construct at from) o = do
  assert (is_free at o)
  source ← lookup from o.packets
  some (place at source (place from (moved_from source) o))
apply (copy_assign to from) o = do
  target ← lookup to o.packets
  source ← lookup from o.packets
  some (place to source o)
apply (move_assign to from) o = do
  target ← lookup to o.packets
  source ← lookup from o.packets
  assert (not (to == from))
  some (place to source (place from (moved_from source) o))
apply (destroy at) o = do
  p ← lookup at o.packets
  some (record {
    allocator = free_packet_uuid p.packet_id o.allocator;
    packets = erase at o.packets;
  })

unfoldable pub run : List Op → Objects → Option Objects
unfolding apply
run [] o = some o
run (op ∷ ops) o = do o' ← apply op o; run ops o'

-- No packet, and no id in use.
abbrev pub no_objects : Objects
no_objects = record {
  allocator = record { packet_uuid_set = []; packet_uuid_start = 0 };
  packets = [];
}

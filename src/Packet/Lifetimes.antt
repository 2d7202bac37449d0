-- ===== src/Packet/Lifetimes.antt =====
-- Which ids are in use, and which packets have them.
use kensv.Prelude.{
  ℕ, zero, suc, ◌+◌, ◌%◌, ◌^◌, ◌<◌, ◌≡◌, ◌≢◌, refl, sym, subst, ◌∙◌, ◌⊎◌, inl, inr, not, Bool, true,
  false, Option, none, some, List, [], ◌∷◌, length, replicate, ◌==◌, if◌then◌else◌, Bool-cases,
  arith,
}
use mathlib.Core.Option.{some-injective}
use kensv.Prelude.Maybe.{◌>>=◌, ◌>>◌, assert, Holds, Holds-bind}
use kensv.Prelude.Table.{lookup, assign, erase, lookup-assign, lookup-erase}
use kensv.Prelude.NumSet.{member, insert, member-insert, member-remove}
use kensv.Packet.{
  Packet, Allocator, search_uuid, allocate_packet_uuid, new, clone, free_packet_uuid,
}
use kensv.Packet.Objects.{
  Objects, Op, construct, clones, copy_construct, move_construct, copy_assign, move_assign, destroy,
  apply, run, no_objects, place, moved_from,
}

-- How many ids the operations allocate.
abbrev pub made : Op → ℕ
made (construct at size) = 1
made (clones at from) = 1
made (copy_construct at from) = 0
made (move_construct at from) = 0
made (copy_assign to from) = 0
made (move_assign to from) = 0
made (destroy at) = 0

abbrev pub allocations : List Op → ℕ
allocations [] = 0
allocations (op ∷ ops) = made op + allocations ops

-- The ids below `n`, and only they, were given out.
record Counted (n : ℕ) (o : Objects) : Type 0 where
  next : o.allocator.packet_uuid_start ≡ n
  below : (k : ℕ) → member k o.allocator.packet_uuid_set ≡ true → k < n
  ids : (at : ℕ) (p : Packet) → lookup at o.packets ≡ some p → p.packet_id < n

search_uuid-free :
    (fuel c : ℕ) (a : Allocator)
    → 0 < fuel
    → member c a.packet_uuid_set ≡ false
    → search_uuid fuel c a
      ≡ some (
        record {
          packet_uuid_set = insert c a.packet_uuid_set;
          packet_uuid_start = (c + 1) % 2 ^ 64;
        },
        c,
      )
unfolding search_uuid
search_uuid-free zero c a h free = absurd (omega arith)
search_uuid-free (suc fuel) c a h free = rw free refl

-- The allocator after an allocation that gives out `n`.
abbrev next_allocator : ℕ → Allocator → Allocator
next_allocator n a = record {
  packet_uuid_set = insert n a.packet_uuid_set;
  packet_uuid_start = (n + 1) % 2 ^ 64;
}

allocates :
    (n : ℕ) (o : Objects)
    → Counted n o
    → allocate_packet_uuid o.allocator ≡ some (next_allocator n o.allocator, n)
unfolding allocate_packet_uuid
allocates n o v =
    let start : ℕ = o.allocator.packet_uuid_start in
    let unused : member start o.allocator.packet_uuid_set ≡ false =
      elim (Bool-cases (member start o.allocator.packet_uuid_set)) [
        | inl used ↦ absurd (omega (arith, v.below start used, v.next))
        | inr free ↦ free
      ] in
    subst (λ c. allocate_packet_uuid o.allocator ≡ some (next_allocator c o.allocator, c)) v.next
      (search_uuid-free (length o.allocator.packet_uuid_set + 1) start o.allocator (omega arith)
        unused)

placed :
    (n at : ℕ) (p : Packet) (o : Objects) → p.packet_id < n → Counted n o → Counted n (place at p o)
placed n at p o small v = record {
  next = v.next;
  below = v.below;
  ids = λ k q found. elim (Bool-cases (at == k)) [
    | inl it ↦
        let both : some p ≡ some q = rw it at (sym (lookup-assign at k p o.packets) ∙ found) in
        subst (λ q. q.packet_id < n) (some-injective p q both) small
    | inr other ↦ v.ids k q (rw other at (sym (lookup-assign at k p o.packets) ∙ found))
  ];
}

-- A new packet, with the id that is next.
added :
    (n at : ℕ) (p : Packet) (o : Objects)
    → n + 1 < 2 ^ 64
    → p.packet_id ≡ n
    → Counted n o
    → Counted
        (n + 1)
        (record { allocator = next_allocator n o.allocator; packets = assign at p o.packets })
added n at p o room own v =
    placed (n + 1) at p (record o { allocator = next_allocator n o.allocator }) (omega arith)
      (record {
        next = omega arith;
        below = λ k used.
            below k (Bool-cases (n == k))
              (sym (member-insert n k o.allocator.packet_uuid_set) ∙ used);
        ids = λ k q found. omega (arith, v.ids k q found);
      })
  where
    below :
        (k : ℕ)
        → ((n == k) ≡ true) ⊎ ((n == k) ≡ false)
        → (if n == k then true else member k o.allocator.packet_uuid_set) ≡ true
        → k < n + 1
    below k (inl it) h = ground arith
    below k (inr other) h = ground (arith, v.below k)

same : {n : ℕ} {o : Objects} → Counted n o → Counted (n + 0) o
same {n} {o} v = subst (λ n. Counted n o) (omega arith) v

moved :
    (n at from : ℕ) (p : Packet) (o : Objects)
    → lookup from o.packets ≡ some p
    → Counted n o
    → Counted (n + 0) (place at p (place from (moved_from p) o))
moved n at from p o found v =
    let small : p.packet_id < n = v.ids from p found in
    same
      (placed n at p (place from (moved_from p) o) small (placed n from (moved_from p) o small v))

freed :
    (n at : ℕ) (p : Packet) (o : Objects)
    → Counted n o
    → Counted (n + 0) (record {
      allocator = free_packet_uuid p.packet_id o.allocator;
      packets = erase at o.packets;
    })
unfolding free_packet_uuid
freed n at p o v = same (record {
  next = v.next;
  below = λ k used. below k (sym (member-remove p.packet_id k o.allocator.packet_uuid_set) ∙ used);
  ids = λ k q found. ids k q (Bool-cases (at == k)) (sym (lookup-erase at k o.packets) ∙ found);
})
  where
    below :
        (k : ℕ)
        → (if p.packet_id == k then false else member k o.allocator.packet_uuid_set) ≡ true
        → k < n
    below k h = ground (arith, v.below k)

    ids :
        (k : ℕ) (q : Packet)
        → ((at == k) ≡ true) ⊎ ((at == k) ≡ false)
        → (if at == k then none else lookup k o.packets) ≡ some q
        → q.packet_id < n
    ids k q (inl it) h = let gone : none ≡ some q = rw it at h in cc
    ids k q (inr other) h = v.ids k q (rw other at h)

new_lem :
    (n size : ℕ) (o : Objects)
    → Counted n o
    → new size o.allocator
      ≡ some (next_allocator n o.allocator, record { buffer = replicate size 0; packet_id = n })
unfolding new
new_lem n size o v = rw (allocates n o v, new) refl

clone_next :
    (n : ℕ) (source : Packet) (o : Objects)
    → Counted n o
    → clone source o.allocator
      ≡ some (next_allocator n o.allocator, record source { packet_id = n })
unfolding clone
clone_next n source o v = rw (new_lem n (length source.buffer) o v, clone) refl

-- An operation on the object at an address, and a construction at another.
with_source :
    (n from : ℕ) (o : Objects) (f : Packet → Option Objects)
    → ((p : Packet) → lookup from o.packets ≡ some p → Holds (Counted n) (f p))
    → Holds (Counted n) (lookup from o.packets >>= f)
with_source n from o f h = Holds-bind (Counted n) (lookup from o.packets) f h

asserted :
    (n : ℕ) (test : Bool) (r : Option Objects)
    → Holds (Counted n) r
    → Holds (Counted n) (assert test >> r)
asserted n true r h = h
asserted n false r h = tt

apply-Counted :
    (op : Op) (n : ℕ) (o : Objects)
    → Counted n o
    → n + made op < 2 ^ 64
    → Holds (Counted (n + made op)) (apply op o)
unfolding apply
apply-Counted (construct at size) n o v room =
    asserted (n + 1) _
      (new size o.allocator >>= λ (a, p).
        some (record { allocator = a; packets = assign at p o.packets }))
      (rw (new_lem n size o v) (added n at _ o room refl v))
apply-Counted (clones at from) n o v room = asserted (n + 1) _ _ (
    with_source (n + 1) from o
      (λ p. clone p o.allocator >>= λ (a, p).
        some (record { allocator = a; packets = assign at p o.packets }))
      (λ p found. rw (clone_next n p o v) (added n at _ o room refl v)))
apply-Counted (copy_construct at from) n o v room = asserted _ _ _ (
    with_source (n + 0) from o (λ p. some (place at p o))
      (λ p found. placed (n + 0) at p o (omega (arith, v.ids from p found)) (same v)))
apply-Counted (move_construct at from) n o v room = asserted _ _ _ (
    with_source (n + 0) from o (λ p. some (place at p (place from (moved_from p) o)))
      (λ p found. moved n at from p o found v))
apply-Counted (copy_assign to from) n o v room = with_source (n + 0) to o _ (λ q there.
    with_source (n + 0) from o (λ p. some (place to p o))
      (λ p found. placed (n + 0) to p o (omega (arith, v.ids from p found)) (same v)))
apply-Counted (move_assign to from) n o v room = with_source (n + 0) to o _ (λ q there.
    with_source (n + 0) from o
      (λ p. assert (not (to == from)) >> some (place to p (place from (moved_from p) o)))
      (λ p found.
        asserted _ _ (some (place to p (place from (moved_from p) o)))
          (moved n to from p o found v)))
apply-Counted (destroy at) n o v room =
    with_source (n + 0) at o
      (λ p. some (record {
        allocator = free_packet_uuid p.packet_id o.allocator;
        packets = erase at o.packets;
      }))
      (λ p found. freed n at p o v)

run-Counted :
    (ops : List Op) (n : ℕ) (o : Objects)
    → Counted n o
    → n + allocations ops < 2 ^ 64
    → Holds (Counted (n + allocations ops)) (run ops o)
unfolding run
run-Counted [] n o v room = same v
run-Counted (op ∷ ops) n o v room = Holds-bind _ (apply op o) (run ops) (λ o' applied.
    subst (λ k. Holds (Counted k) (run ops o')) (omega arith)
      (run-Counted ops (n + made op) o'
        (subst (Holds (Counted (n + made op))) applied (apply-Counted op n o v (omega arith)))
        (omega arith)))

no_objects-Counted : Counted 0 no_objects
unfolding member lookup
no_objects-Counted = record { next = refl; below = λ k used. cc; ids = λ at p found. cc }

-- After any operations on packets from the start, with fewer than 2 ^ 64 allocations, a new packet
-- gets an id that no packet alive has: the number of allocations so far.
pub new_is_fresh :
    (ops : List Op) (size : ℕ) (o : Objects)
    → run ops no_objects ≡ some o
    → allocations ops < 2 ^ 64
    → (a : Allocator) × (p : Packet) × (new size o.allocator ≡ some (a, p))
      × (p.packet_id ≡ allocations ops)
      × ((at : ℕ) (q : Packet) → lookup at o.packets ≡ some q → q.packet_id ≢ p.packet_id)
new_is_fresh ops size o ran room =
    let n : ℕ = allocations ops in
    let v : Counted n o =
      subst (λ n. Counted n o) (omega arith)
        (subst (Holds (Counted (0 + n))) ran
          (run-Counted ops 0 no_objects no_objects-Counted (omega arith))) in
    (
      next_allocator n o.allocator,
      record { buffer = replicate size 0; packet_id = n },
      new_lem n size o v,
      refl,
      λ at q found. omega (arith, v.ids at q found),
    )

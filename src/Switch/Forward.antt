-- ===== src/Switch/Forward.antt =====
-- The ports to which a switch forwards.
use kensv.Prelude.{
  ℕ, ◌+◌, ◌%◌, ◌^◌, ◌≤◌, ◌<◌, ◌≡◌, refl, sym, subst, ap, ◌∙◌, inl, inr, Bool, true, false, not,
  ◌&&◌, some, List, [], ◌∷◌, map, length, take, All, arith, ◌==◌, if◌then◌else◌, Bool-cases,
}
use kensv.Prelude.NumSet.{insert, length-remove-le}
use kensv.NetworkUtil.{array_to_uint64}
use kensv.Packet.{Packet, Allocator, free_packet_uuid, clone}
use kensv.Packet.Ids.{allocate_packet_uuid-Allocates}
use kensv.Ipv4.Header.{read_then}
use kensv.Switch.{Switch, is_target, damage, Departures, forward, flood, found, packet_arrived}
use kensv.Switch.Damage.{damage-some}

-- The wires of a list that pass a test.
unfoldable pub keep : (ℕ → Bool) → List ℕ → List ℕ
keep test [] = []
keep test (w ∷ ws) = let rest = keep test ws in if test w then w ∷ rest else rest

length-insert : (k : ℕ) (s : List ℕ) → length (insert k s) ≤ length s + 1
unfolding insert
length-insert k s = ground arith

-- The allocator has ids left for that many packets.
abbrev pub Ready : ℕ → Allocator → Type 0
Ready n a = (a.packet_uuid_start < 2 ^ 64) × (length a.packet_uuid_set + n < 2 ^ 64)

cloned :
    (p : Packet) (a : Allocator) (n : ℕ)
    → Ready (n + 1) a
    → (a' : Allocator) × (q : Packet) × (clone p a ≡ some (a', q))
      × (q.buffer ≡ p.buffer)
      × Ready n (free_packet_uuid q.packet_id a')
unfolding clone free_packet_uuid
cloned p a n (start, room) =
    let found = allocate_packet_uuid-Allocates a start (omega arith) in
    (
      record {
        packet_uuid_set = insert found.uuid a.packet_uuid_set;
        packet_uuid_start = (found.uuid + 1) % 2 ^ 64;
      },
      record { buffer = p.buffer; packet_id = found.uuid },
      ground (arith, found.finds),
      refl,
      (
        omega arith,
        omega (
          arith,
          length-insert found.uuid a.packet_uuid_set,
          length-remove-le found.uuid (insert found.uuid a.packet_uuid_set),
        ),
      ),
    )

-- The departures go through the given wires, in order, each with a packet of the same size, and
-- with the same bytes if nothing is lost.
pub record Departs (p : Packet) (wires : List ℕ) (reliable : Bool) (d : Departures) : Type 0 where
  pub allocator : Allocator
  pub sent : List (ℕ × Packet)
  pub leaves : d ≡ some (allocator, sent)
  pub through : map (λ s. s.0) sent ≡ wires
  pub sizes : All (λ s. length s.1.buffer ≡ length p.buffer) sent
  pub bytes : reliable ≡ true → All (λ s. s.1.buffer ≡ p.buffer) sent

flood-Departs :
    (in_wire : ℕ) (p : Packet) (wires : List ℕ) (reliable : Bool) (a : Allocator)
    → Ready (length wires) a
    → Departs p (keep (λ w. not (in_wire == w)) wires) reliable (flood in_wire p wires a)
unfolding flood keep
flood-Departs in_wire p [] reliable a ready = record {
  allocator = a;
  sent = [];
  leaves = refl;
  through = refl;
  sizes = tt;
  bytes = λ _. tt;
}
flood-Departs in_wire p (w ∷ wires) reliable a (start, room) = elim (Bool-cases (in_wire == w)) [
  | inl back ↦ rw back (flood-Departs in_wire p wires reliable a (start, omega arith))
  | inr other ↦
      let (a', q, copies, same, ready) = cloned p a (length wires) (start, omega arith) in
      let rest = flood-Departs in_wire p wires reliable (free_packet_uuid q.packet_id a') ready in
      rw other (record {
        allocator = rest.allocator;
        sent = (w, q) ∷ rest.sent;
        leaves = rw (copies, rest.leaves) refl;
        through = ap (λ ws. w ∷ ws) rest.through;
        sizes = (ap length same, rest.sizes);
        bytes = λ r. (same, rest.bytes r);
      })
]

not-not : (b : Bool) → not (not b) ≡ b
not-not true = refl
not-not false = refl

-- The packet of one departure.
sent_copy :
    (reliable unlucky : Bool) (q : Packet)
    → (r : Packet) × ((if not reliable && unlucky then damage q else some q) ≡ some r)
      × (length r.buffer ≡ length q.buffer)
      × (reliable ≡ true → r.buffer ≡ q.buffer)
sent_copy true unlucky q = (q, refl, refl, λ _. refl)
sent_copy false true q = let (r, damaged, size) = damage-some q in (r, damaged, size, λ h. cc)
sent_copy false false q = (q, refl, refl, λ h. cc)

forward-Departs :
    (mac_int in_wire : ℕ) (p : Packet) (s : Switch) (wires : List ℕ) (lost : ℕ → Bool)
    (a : Allocator)
    → Ready (length wires) a
    → Departs p
        (keep (λ w. not (in_wire == w) && is_target mac_int w s) wires)
        (not s.unreliable)
        (forward mac_int in_wire p s wires lost a)
unfolding forward keep
forward-Departs mac_int in_wire p s [] lost a ready = record {
  allocator = a;
  sent = [];
  leaves = refl;
  through = refl;
  sizes = tt;
  bytes = λ _. tt;
}
forward-Departs mac_int in_wire p s (w ∷ wires) lost a (start, room) =
    elim (Bool-cases (not (in_wire == w) && is_target mac_int w s)) [
      | inr passed ↦
          rw passed (forward-Departs mac_int in_wire p s wires lost a (start, omega arith))
      | inl target ↦
          let (a', q, copies, same, ready) = cloned p a (length wires) (start, omega arith) in
          let rest =
            forward-Departs mac_int in_wire p s wires lost (free_packet_uuid q.packet_id a')
              ready in
          let (r, sends, size, intact) = sent_copy (not s.unreliable) (lost w) q in
          let sends' : (if s.unreliable && lost w then damage q else some q) ≡ some r =
            rw (not-not s.unreliable) at sends in
          rw target (record {
            allocator = rest.allocator;
            sent = (w, r) ∷ rest.sent;
            leaves = rw (copies, sends', rest.leaves) refl;
            through = ap (λ ws. w ∷ ws) rest.through;
            sizes = (size ∙ ap length same, rest.sizes);
            bytes = λ h. (intact h ∙ same, rest.bytes h);
          })
    ]

-- The targets, or all wires if there is none.
unfoldable pub or_all : List ℕ → List ℕ → List ℕ
or_all [] all = all
or_all (w ∷ targets) all = w ∷ targets

or_all-found :
    (mac_int in_wire : ℕ) (s : Switch) (wires all : List ℕ)
    → or_all (keep (λ w. not (in_wire == w) && is_target mac_int w s) wires) all ≡ (
        if found mac_int in_wire s wires
        then keep (λ w. not (in_wire == w) && is_target mac_int w s) wires
        else all)
unfolding found keep or_all
or_all-found mac_int in_wire s [] all = refl
or_all-found mac_int in_wire s (w ∷ wires) all =
    elim (Bool-cases (not (in_wire == w) && is_target mac_int w s)) [
      | inl target ↦ rw target refl
      | inr passed ↦ rw passed (or_all-found mac_int in_wire s wires all)
    ]

-- A packet of at least six bytes that arrives at a switch, while packet ids are left for its
-- copies, leaves through the wires, other than that of its arrival, whose entries hold its
-- destination, or through all of them for the broadcast address; if no such wire is there, through
-- all wires but that of its arrival. Each departure is a packet of the same size, with the same
-- bytes if the switch is reliable.
pub packet_arrived-Departs :
    (in_wire : ℕ) (p : Packet) (s : Switch) (lost : ℕ → Bool) (a : Allocator)
    → 6 ≤ length p.buffer
    → Ready (length s.ports) a
    → Departs p
        (or_all
          (keep
            (λ w. not (in_wire == w) && is_target (array_to_uint64 (take 6 p.buffer)) w s)
            s.ports)
          (keep (λ w. not (in_wire == w)) s.ports))
        (not s.unreliable)
        (packet_arrived in_wire p s lost a)
unfolding packet_arrived
packet_arrived-Departs in_wire p s lost a header ready =
    let mac_int : ℕ = array_to_uint64 (take 6 p.buffer) in
    let all = keep (λ w. not (in_wire == w)) s.ports in
    subst (Departs p _ (not s.unreliable)) (sym (read_then 0 6 p _ header)) (
      rw (or_all-found mac_int in_wire s s.ports all)
        (elim (Bool-cases (found mac_int in_wire s s.ports)) [
          | inl some_target ↦
              rw some_target (forward-Departs mac_int in_wire p s s.ports lost a ready)
          | inr no_target ↦
              rw no_target (flood-Departs in_wire p s.ports (not s.unreliable) a ready)
        ]))

-- ===== src/Networking/Peers.antt =====
-- Every port of a node leads through its wire to a node at the other end.
use kensv.Prelude.{
  ℕ, ◌+◌, ◌%◌, ◌^◌, ◌<◌, ◌≡◌, refl, subst, inl, inr, Bool, true, ◌||◌, Option, some, List, [], ◌∷◌,
  ◌++◌, length, Bool-cases, Option-cases, arith,
}
use kensv.Prelude.Maybe.{◌>>=◌, Holds, Holds-bind}
use kensv.Prelude.Table.{lookup, assign, contains}
use kensv.Wire.{Wire, End, left, right, opposite, connected, destination}
use kensv.Wire
use kensv.Networking.{
  Network, empty, new_module_id, add_node, connect_wire, add_wire, Op, node, wire, build,
}
use kensv.Networking.Linked.{
  Linked, has_port, empty-Linked, Linked-destination, node-Linked, wire-Linked,
}

-- One step of the building, which takes one id.
abbrev Grows : Network → Network → Type 0
Grows n n' = Linked n' × (n'.next ≡ n.next + 1)

-- A property of what comes after `new_module_id`.
pub with_id :
    {A : Type 0} (P : A → Type 0) (n : Network) (f : Network × ℕ → Option A)
    → Holds P (f (record n { next = (n.next + 1) % 2 ^ 64 }, n.next))
    → Holds P (new_module_id n >>= f)
unfolding new_module_id
with_id P n f h = elim (Bool-cases (contains n.next n.wires || contains n.next n.ports)) [
  | inl used ↦ rw used tt
  | inr free ↦ rw free h
]

add_node-Grows :
    (n : Network) → Linked n → n.next + 1 < 2 ^ 64 → Holds (λ r. Grows n r.0) (add_node n)
unfolding add_node
add_node-Grows n v room = with_id (λ r. Grows n r.0) n _ (node-Linked n v room, omega arith)

add_wire-Grows :
    (l r delay bps : ℕ) (limit : Bool) (now : ℕ) (n : Network)
    → Linked n
    → n.next + 1 < 2 ^ 64
    → Holds (λ x. Grows n x.0) (add_wire l r delay bps limit now n)
unfolding add_wire connect_wire Wire.init
add_wire-Grows l r delay bps limit now n v room =
    with_id (λ x. Grows n x.0) n _
      (elim (Option-cases (lookup l n.ports)) [
        | inl gone ↦ rw (gone, connect_wire) tt
        | inr (ps, at_left) ↦
            rw (at_left, connect_wire)
              (elim (Option-cases (lookup r (assign l (ps ++ n.next ∷ []) n.ports))) [
                | inl gone ↦ rw (gone, connect_wire) tt
                | inr (qs, at_right) ↦
                    rw (at_right, connect_wire)
                      (
                        wire-Linked l r (Wire.init l r delay bps limit now) ps qs n v room refl refl
                            at_left at_right,
                        omega arith,
                      )
              ])
      ])

build-Linked :
    (ops : List Op) (n : Network)
    → Linked n
    → n.next + length ops < 2 ^ 64
    → Holds Linked (build ops n)
unfolding build
build-Linked [] n v room = v
build-Linked (node ∷ ops) n v room =
    Holds-bind Linked (add_node n) (λ (n', id). build ops n')
      (λ (n', id) added.
        let (v', next) =
          subst (Holds (λ r. Grows n r.0)) added (add_node-Grows n v (omega arith)) in
        build-Linked ops n' v' (omega arith))
build-Linked (wire l r delay bps limit now ∷ ops) n v room =
    Holds-bind Linked (add_wire l r delay bps limit now n)
      (λ (n', wire_id, left_port_id, right_port_id). build ops n')
      (λ (n', wire_id, left_port_id, right_port_id) added.
        let (v', next) =
          subst (Holds (λ x. Grows n x.0)) added
            (add_wire-Grows l r delay bps limit now n v (omega arith)) in
        build-Linked ops n' v' (omega arith))

-- In every network that is built from nodes and wires, with fewer than 2 ^ 64 - 1 of them: a port of a node
-- has a wire, which has the node at one end; a packet that the node sends to it goes to the other end,
-- and the node there has a port with the same wire. So no packet is lost for want of a destination.
pub port_leads :
    (ops : List Op) (n : Network) (m w : ℕ)
    → build ops empty ≡ some n
    → 1 + length ops < 2 ^ 64
    → has_port m w n ≡ true
    → (x : Wire) × (to : End) × (lookup w n.wires ≡ some x)
      × (destination m x ≡ some to)
      × (connected (opposite to) x ≡ m)
      × (has_port (connected to x) w n ≡ true)
port_leads ops n m w built room port =
    Linked-destination n m w (subst (Holds Linked) built (build-Linked ops empty empty-Linked room))
      port

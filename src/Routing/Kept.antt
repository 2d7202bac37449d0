-- ===== src/Routing/Kept.antt =====
-- What is added to a network does not change the costs that are read off the wires that are there.
use mathlib.Core.Option.{some-injective}
use kensv.Prelude.{
  ℕ, zero, suc, ◌+◌, ◌/◌, ◌%◌, ◌^◌, ◌<◌, ◌≤◌, ◌≡◌, refl, sym, ap, subst, ◌∙◌, inl, inr, Bool, true,
  false, not, ◌||◌, Option, none, some, List, [], ◌∷◌, ◌++◌, length, get_elem?, ◌==◌, Bool-cases,
  Option-cases, arith,
}
use kensv.Prelude.Maybe.{◌>>=◌, ◌>>◌, assert, Holds, >>=-eq-some}
use kensv.Prelude.Table.{Table, lookup, assign, contains, lookup-assign, contains-lookup}
use kensv.Wire.{Wire, get_wire_speed}
use kensv.Wire
use kensv.Networking.{Network, new_module_id, add_node, connect_wire, add_wire, wire_speed}
use kensv.Routing.Costs.{max_cost, cost_lcm, speed_of, link_cost, cost_back, elem-append}

-- Every cost that is read is read again.
abbrev pub Keeps : Network → Network → Type 0
Keeps n n' = (host port c : ℕ) → link_cost host port n ≡ some c → link_cost host port n' ≡ some c

with_fresh :
    {A : Type 0} (P : A → Type 0) (n : Network) (f : Network × ℕ → Option A)
    → (lookup n.next n.wires ≡ none
        → lookup n.next n.ports ≡ none
        → Holds P (f (record n { next = (n.next + 1) % 2 ^ 64 }, n.next)))
    → Holds P (new_module_id n >>= f)
unfolding new_module_id
with_fresh P n f h = elim (Bool-cases (contains n.next n.wires || contains n.next n.ports)) [
  | inl used ↦ rw used tt
  | inr free ↦ rw free (
      h (contains-lookup n.next n.wires (ground arith))
        (contains-lookup n.next n.ports (ground arith)))
]

-- What a cost is read from.
record Read (host port : ℕ) (n : Network) (c : ℕ) : Type 0 where
  ports : List ℕ
  wire : ℕ
  x : Wire
  at_host : lookup host n.ports ≡ some ports
  at_port : get_elem? ports port ≡ some wire
  is_wire : lookup wire n.wires ≡ some x
  rest : (assert (not (x.bps == 0)) >> some (cost_lcm / x.bps)) ≡ some c

reads : (host port : ℕ) (n : Network) (c : ℕ) → link_cost host port n ≡ some c → Read host port n c
unfolding link_cost wire_speed get_wire_speed
reads host port n c e =
    let (ports, at_host, e₁) = >>=-eq-some (lookup host n.ports) _ e in
    let (wire, at_port, e₂) = >>=-eq-some (get_elem? ports port) _ e₁ in
    let (bps, speed, e₃) =
      >>=-eq-some (lookup wire n.wires >>= λ wire. some (get_wire_speed wire)) _ e₂ in
    let (x, is_wire, e₄) = >>=-eq-some (lookup wire n.wires) _ speed in
    record {
      ports = ports;
      wire = wire;
      x = x;
      at_host = at_host;
      at_port = at_port;
      is_wire = is_wire;
      rest =
          subst (λ b. (assert (not (b == 0)) >> some (cost_lcm / b)) ≡ some c)
            (sym (some-injective _ _ e₄)) e₃;
    }

costs_again :
    (host port : ℕ) (n : Network) (c : ℕ) → Read host port n c → link_cost host port n ≡ some c
unfolding link_cost wire_speed get_wire_speed
costs_again host port n c r = rw (r.at_host, r.at_port, r.is_wire) r.rest

elem-prefix : (xs ys : List ℕ) (k w : ℕ) → get_elem? xs k ≡ some w → get_elem? (xs ++ ys) k ≡ some w
elem-prefix [] ys k w e = cc
elem-prefix (x ∷ xs) ys zero w e = e
elem-prefix (x ∷ xs) ys (suc k) w e = elem-prefix xs ys k w e

assign-other :
    {V : Type 0} (k j : ℕ) (v : V) (m : Table V) (u : V)
    → lookup k m ≡ none
    → lookup j m ≡ some u
    → lookup j (assign k v m) ≡ some u
assign-other k j v m u free there = elim (Bool-cases (k == j)) [
  | inl same ↦
      let e : k ≡ j = ground arith in
      let gone : lookup j m ≡ none = subst (λ j. lookup j m ≡ none) e free in cc
  | inr other ↦ lookup-assign k j v m ∙ rw other there
]

-- A new wire, a new node, and a port more.
Keeps-wire :
    (w : ℕ) (x : Wire) (next : ℕ) (n : Network)
    → lookup w n.wires ≡ none
    → Keeps n (record { next = next; wires = assign w x n.wires; ports = n.ports })
Keeps-wire w x next n free host port c e =
    let r = reads host port n c e in
    costs_again host port _ c (record {
      ports = r.ports;
      wire = r.wire;
      x = r.x;
      at_host = r.at_host;
      at_port = r.at_port;
      is_wire = assign-other w r.wire x n.wires r.x free r.is_wire;
      rest = r.rest;
    })

Keeps-node :
    (id next : ℕ) (n : Network)
    → lookup id n.ports ≡ none
    → Keeps n (record { next = next; wires = n.wires; ports = assign id [] n.ports })
Keeps-node id next n free host port c e =
    let r = reads host port n c e in
    costs_again host port _ c (record {
      ports = r.ports;
      wire = r.wire;
      x = r.x;
      at_host = assign-other id host [] n.ports r.ports free r.at_host;
      at_port = r.at_port;
      is_wire = r.is_wire;
      rest = r.rest;
    })

Keeps-port :
    (m w : ℕ) (ps : List ℕ) (n : Network)
    → lookup m n.ports ≡ some ps
    → Keeps n (record n { ports = assign m (ps ++ w ∷ []) n.ports })
Keeps-port m w ps n found host port c e =
    let r = reads host port n c e in
    let keep =
      λ (ports : List ℕ) (at_host : lookup host (assign m (ps ++ w ∷ []) n.ports) ≡ some ports)
          (at_port : get_elem? ports port ≡ some r.wire).
        costs_again host port (record n { ports = assign m (ps ++ w ∷ []) n.ports }) c
          (record {
            ports = ports;
            wire = r.wire;
            x = r.x;
            at_host = at_host;
            at_port = at_port;
            is_wire = r.is_wire;
            rest = r.rest;
          }) in
    elim (Bool-cases (m == host)) [
      | inl same ↦
          let e : m ≡ host = ground arith in
          let ports : ps ≡ r.ports =
            some-injective _ _ (sym found ∙ ap (λ k. lookup k n.ports) e ∙ r.at_host) in
          keep (ps ++ w ∷ []) (lookup-assign m host (ps ++ w ∷ []) n.ports ∙ rw same refl) (
            elem-prefix ps (w ∷ []) port r.wire
              (subst (λ l. get_elem? l port ≡ some r.wire) (sym ports) r.at_port))
      | inr other ↦
          keep r.ports (lookup-assign m host (ps ++ w ∷ []) n.ports ∙ rw other r.at_host) r.at_port
    ]

pub add_node-Keeps : (n : Network) → Holds (λ r. Keeps n r.0) (add_node n)
unfolding add_node
add_node-Keeps n =
    with_fresh (λ r. Keeps n r.0) n _
      (λ new_wire new_port. Keeps-node n.next ((n.next + 1) % 2 ^ 64) n new_port)

-- The cost at the port that a wire of an allowed speed has just got.
new_port :
    (m w : ℕ) (x : Wire) (cost : ℕ) (ps : List ℕ) (n : Network)
    → 0 < cost
    → cost ≤ max_cost
    → x.bps ≡ cost_lcm / cost
    → lookup w n.wires ≡ some x
    → link_cost m (length ps) (record n { ports = assign m (ps ++ w ∷ []) n.ports }) ≡ some cost
new_port m w x cost ps n some_cost allowed speed is_wire =
    let (some_speed, back) = cost_back cost some_cost allowed in
    let same : (m == m) ≡ true = ground arith in
    costs_again m (length ps) _ cost (record {
      ports = ps ++ w ∷ [];
      wire = w;
      x = x;
      at_host = lookup-assign m m (ps ++ w ∷ []) n.ports ∙ rw same refl;
      at_port = elem-append ps w;
      is_wire = is_wire;
      rest = rw (speed, some_speed, back) refl;
    })

-- A wire between two modules, with the speed for an allowed cost: at the new ports of both ends,
-- that cost is read, and every cost that was read before is read again.
pub add_wire-Keeps :
    (l r delay bps cost now : ℕ) (limit : Bool) (n : Network)
    → 0 < cost
    → cost ≤ max_cost
    → speed_of cost ≡ some bps
    → Holds
        (λ x. Keeps n x.0 × (link_cost l x.2 x.0 ≡ some cost) × (link_cost r x.3 x.0 ≡ some cost))
        (add_wire l r delay bps limit now n)
unfolding add_wire connect_wire Wire.init speed_of
add_wire-Keeps l r delay bps cost now limit n some_cost allowed speed =
    let positive : (cost == 0) ≡ false = ground arith in
    let is_speed : bps ≡ cost_lcm / cost = sym (some-injective _ _ (rw positive at speed)) in
    let x = Wire.init l r delay bps limit now in
    let n₂ = record n { next = (n.next + 1) % 2 ^ 64; wires = assign n.next x n.wires } in
    let same : (n.next == n.next) ≡ true = ground arith in
    let there : lookup n.next n₂.wires ≡ some x =
      lookup-assign n.next n.next x n.wires ∙ rw same refl in
    with_fresh
      (λ x. Keeps n x.0 × (link_cost l x.2 x.0 ≡ some cost) × (link_cost r x.3 x.0 ≡ some cost)) n _
      (λ new_wire new_id. elim (Option-cases (lookup l n.ports)) [
        | inl gone ↦ rw (gone, connect_wire) tt
        | inr (ps, at_left) ↦
            let n₃ = record n₂ { ports = assign l (ps ++ n.next ∷ []) n.ports } in
            rw (at_left, connect_wire)
              (elim (Option-cases (lookup r n₃.ports)) [
                | inl gone ↦ rw (gone, connect_wire) tt
                | inr (qs, at_right) ↦
                    let keeps = Keeps-port r n.next qs n₃ at_right in
                    rw (at_right, connect_wire)
                      (
                        λ host port c e. keeps host port c (
                            Keeps-port l n.next ps n₂ at_left host port c (
                              Keeps-wire n.next x ((n.next + 1) % 2 ^ 64) n new_wire host port c
                                e)),
                        keeps l (length ps) cost
                            (new_port l n.next x cost ps n₂ some_cost allowed is_speed there),
                        new_port r n.next x cost qs n₃ some_cost allowed is_speed there,
                      )
              ])
      ])

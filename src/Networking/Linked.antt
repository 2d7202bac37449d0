-- ===== src/Networking/Linked.antt =====
-- The ports of the nodes and the ends of the wires fit together, whatever is added.
use mathlib.Core.Option.{some-injective}
use kensv.Prelude.{
  ℕ, ◌+◌, ◌%◌, ◌^◌, ◌<◌, ◌≡◌, ◌≢◌, refl, sym, ap, subst, ◌∙◌, inl, inr, ◌⊎◌, Bool, true, false,
  ◌&&◌, Option, none, some, List, [], ◌∷◌, ◌++◌, ◌==◌, if◌then◌else◌, Bool-cases, arith,
}
use kensv.Prelude.Table.{Table, lookup, assign, lookup-assign}
use kensv.Prelude.NumSet.{member}
use kensv.Wire.{Wire, End, left, right, opposite, connected, destination}
use kensv.Networking.{Network, empty}

abbrev pub in_ports : ℕ → Option (List ℕ) → Bool
in_ports w none = false
in_ports w (some ps) = member w ps

-- Whether the node has a port with the wire.
abbrev pub has_port : ℕ → ℕ → Network → Bool
has_port m w n = in_ports w (lookup m n.ports)

member-++ :
    (k w : ℕ) (ps : List ℕ) → member k (ps ++ w ∷ []) ≡ (if w == k then true else member k ps)
unfolding member
member-++ k w [] = refl
member-++ k w (p ∷ ps) = ground (arith, member-++ k w ps)

abbrev pub connect : ℕ → ℕ → List ℕ → Network → Network
connect m w ps n = record n { ports = assign m (ps ++ w ∷ []) n.ports }

has_port-connect :
    (m w : ℕ) (ps : List ℕ) (n : Network) (j k : ℕ)
    → lookup m n.ports ≡ some ps
    → has_port j k (connect m w ps n) ≡ (if (m == j) && (w == k) then true else has_port j k n)
has_port-connect m w ps n j k found = elim (Bool-cases (m == j)) [
  | inl it ↦
      let same : m ≡ j = ground arith in
      let there : lookup j n.ports ≡ some ps = subst (λ j. lookup j n.ports ≡ some ps) same found in
      rw (lookup-assign, it, there) (member-++ k w ps)
  | inr other ↦ rw (lookup-assign, other) refl
]

-- Ids are below `next`, a port has a wire with the node at an end, and a wire is a port at both ends.
pub record Linked (n : Network) : Type 0 where
  pub started : 0 < n.next
  pub node_id : (m : ℕ) → lookup m n.ports ≢ none → (0 < m) × (m < n.next)
  pub wire_id : (w : ℕ) → lookup w n.wires ≢ none → w < n.next
  pub ends :
      (m w : ℕ)
      → has_port m w n ≡ true
      → (x : Wire) × (lookup w n.wires ≡ some x)
        × ((x.connected_left ≡ m) ⊎ (x.connected_right ≡ m))
  pub ported :
      (w : ℕ) (x : Wire)
      → lookup w n.wires ≡ some x
      → (0 < x.connected_left)
        × (0 < x.connected_right)
        × (has_port x.connected_left w n ≡ true)
        × (has_port x.connected_right w n ≡ true)

pub empty-Linked : Linked empty
unfolding lookup
empty-Linked = record {
  started = omega arith;
  node_id = λ m there. absurd (there refl);
  wire_id = λ w there. absurd (there refl);
  ends = λ m w h. cc;
  ported = λ w x found. cc;
}

-- A packet of a node goes to the end of the wire opposite to it, and the node there has a port with the
-- same wire.
pub Linked-destination :
    (n : Network) (m w : ℕ)
    → Linked n
    → has_port m w n ≡ true
    → (x : Wire) × (to : End) × (lookup w n.wires ≡ some x)
      × (destination m x ≡ some to)
      × (connected (opposite to) x ≡ m)
      × (has_port (connected to x) w n ≡ true)
unfolding destination connected
Linked-destination n m w v port =
    let (x, found, own) = v.ends m w port in
    let (some_left, some_right, at_left, at_right) = v.ported w x found in
    elim (Bool-cases (x.connected_left == m)) [
      | inl it ↦
          let real : (x.connected_right == 0) ≡ false = ground arith in
          (x, right, found, rw (it, real) refl, ground arith, at_right)
      | inr other ↦
          let real : (x.connected_left == 0) ≡ false = ground arith in
          let it : (x.connected_right == m) ≡ true = ground arith in
          (x, left, found, rw (other, it, real) refl, ground arith, at_left)
    ]

has_port-known : (m w : ℕ) (n : Network) → has_port m w n ≡ true → lookup m n.ports ≢ none
has_port-known m w n h gone = let no_port : in_ports w none ≡ true = rw gone at h in cc

-- A new node has no port.
has_port-new :
    (m k : ℕ) (n : Network) (id : ℕ)
    → has_port m k (record n { ports = assign id [] n.ports })
      ≡ (if id == m then false else has_port m k n)
unfolding member
has_port-new m k n id = elim (Bool-cases (id == m)) [
  | inl it ↦ rw (lookup-assign, it) refl
  | inr other ↦ rw (lookup-assign, other) refl
]

-- What is there after an assignment to a key that is there was there before.
there_before {ℓ} :
    {V : Type ℓ} (m k : ℕ) (a : V) (t : Table V)
    → lookup k t ≢ none
    → lookup m (assign k a t) ≢ none
    → lookup m t ≢ none
there_before m k a t there now gone = elim (Bool-cases (k == m)) [
  | inl it ↦ let same : m ≡ k = ground arith in there (subst (λ k. lookup k t ≡ none) same gone)
  | inr other ↦ now (rw (lookup-assign, other) gone)
]

pub node-Linked :
    (n : Network)
    → Linked n
    → n.next + 1 < 2 ^ 64
    → Linked (record n { next = (n.next + 1) % 2 ^ 64; ports = assign n.next [] n.ports })
node-Linked n v room = record {
  started = omega arith;
  node_id = λ m there. elim (Bool-cases (n.next == m)) [
    | inl it ↦ ground (arith, v.started)
    | inr other ↦
        let old = v.node_id m (λ gone. there (rw (lookup-assign, other) gone)) in
        (old.0, omega (arith, old.1))
  ];
  wire_id = λ w there. omega (arith, v.wire_id w there);
  ends = λ m w h. v.ends m w (ground (arith, sym (has_port-new m w n n.next) ∙ h));
  ported = λ w x found.
      let (some_left, some_right, at_left, at_right) = v.ported w x found in
      (some_left, some_right, kept x.connected_left w at_left, kept x.connected_right w at_right);
}
  where
    kept :
        (m w : ℕ)
        → has_port m w n ≡ true
        → has_port m w (record n { ports = assign n.next [] n.ports }) ≡ true
    kept m w h =
        let small = (v.node_id m (has_port-known m w n h)).1 in
        let other : (n.next == m) ≡ false = ground arith in has_port-new m w n n.next ∙ rw other h

module _ (l r : ℕ) (x : Wire) (ps qs : List ℕ) (n : Network) (v : Linked n)
    (room : n.next + 1 < 2 ^ 64) (at_l : x.connected_left ≡ l) (at_r : x.connected_right ≡ r)
    (left_ports : lookup l n.ports ≡ some ps)
    (right_ports : lookup r (assign l (ps ++ n.next ∷ []) n.ports) ≡ some qs) where
  abbrev pub wired : Network
  wired = connect r n.next qs (
      connect l n.next ps
        (record n { next = (n.next + 1) % 2 ^ 64; wires = assign n.next x n.wires }))

  has_port-wired :
      (j k : ℕ)
      → has_port j k wired ≡ (
          if (r == j) && (n.next == k)
          then true
          else if (l == j) && (n.next == k)
          then true
          else has_port j k n)
  has_port-wired j k =
      has_port-connect r n.next qs (connect l n.next ps n) j k right_ports
      ∙ ap (λ b. if (r == j) && (n.next == k) then true else b)
          (has_port-connect l n.next ps n j k left_ports)

  right_known : lookup r n.ports ≢ none
  right_known =
      there_before r l (ps ++ n.next ∷ []) n.ports
        (λ gone. let e : none ≡ some ps = sym gone ∙ left_ports in cc)
        (λ gone. let e : none ≡ some qs = sym gone ∙ right_ports in cc)

  wired_before : (m : ℕ) → lookup m wired.ports ≢ none → lookup m n.ports ≢ none
  wired_before m there =
      there_before m l (ps ++ n.next ∷ []) n.ports
        (λ gone. let e : none ≡ some ps = sym gone ∙ left_ports in cc)
        (there_before m r (qs ++ n.next ∷ []) (assign l (ps ++ n.next ∷ []) n.ports)
          (λ gone. let e : none ≡ some qs = sym gone ∙ right_ports in cc) there)

  still_has : (j k : ℕ) → has_port j k n ≡ true → has_port j k wired ≡ true
  still_has j k h = has_port-wired j k ∙ ground arith

  wired_wires : (k : ℕ) → lookup k wired.wires ≡ (if n.next == k then some x else lookup k n.wires)
  wired_wires k = lookup-assign n.next k x n.wires

  wired_ends :
      (m k : ℕ)
      → has_port m k wired ≡ true
      → (y : Wire) × (lookup k wired.wires ≡ some y)
        × ((y.connected_left ≡ m) ⊎ (y.connected_right ≡ m))
  wired_ends m k h = elim (Bool-cases (n.next == k)) [
    | inl it ↦ (x, rw (wired_wires k, it) refl, own it (Bool-cases (r == m)) (Bool-cases (l == m)))
    | inr other ↦
        let old : has_port m k n ≡ true = ground (arith, sym (has_port-wired m k) ∙ h) in
        let (y, found, its) = v.ends m k old in (y, rw (wired_wires k, other) found, its)
  ]
    where
      own :
          (n.next == k) ≡ true
          → ((r == m) ≡ true) ⊎ ((r == m) ≡ false)
          → ((l == m) ≡ true) ⊎ ((l == m) ≡ false)
          → (x.connected_left ≡ m) ⊎ (x.connected_right ≡ m)
      own it (inl right_is) at_left = inr (ground arith)
      own it (inr not_right) (inl left_is) = inl (ground arith)
      own it (inr not_right) (inr not_left) =
          let old : has_port m k n ≡ true = ground (arith, sym (has_port-wired m k) ∙ h) in
          let (y, found, its) = v.ends m k old in
          let small = v.wire_id k (λ gone. let e : none ≡ some y = sym gone ∙ found in cc) in
          absurd (ground arith)

  wired_ported :
      (k : ℕ) (y : Wire)
      → lookup k wired.wires ≡ some y
      → (0 < y.connected_left)
        × (0 < y.connected_right)
        × (has_port y.connected_left k wired ≡ true)
        × (has_port y.connected_right k wired ≡ true)
  wired_ported k y found = elim (Bool-cases (n.next == k)) [
    | inl it ↦
        let same : some x ≡ some y = rw it at (sym (wired_wires k) ∙ found) in
        subst
          (λ y.
            (0 < y.connected_left)
            × (0 < y.connected_right)
            × (has_port y.connected_left k wired ≡ true)
            × (has_port y.connected_right k wired ≡ true))
          (some-injective x y same)
          (
            rw at_l (v.node_id l (λ gone. let e : none ≡ some ps = sym gone ∙ left_ports in cc)).0,
            rw at_r (v.node_id r right_known).0,
            rw at_l (has_port-wired l k ∙ ground arith),
            rw at_r (has_port-wired r k ∙ ground arith),
          )
    | inr other ↦
        let (some_left, some_right, at_left, at_right) =
          v.ported k y (rw other at (sym (wired_wires k) ∙ found)) in
        (
          some_left,
          some_right,
          still_has y.connected_left k at_left,
          still_has y.connected_right k at_right,
        )
  ]

  pub wire-Linked : Linked wired
  wire-Linked = record {
    started = omega arith;
    node_id =
        λ m there. let old = v.node_id m (wired_before m there) in (old.0, omega (arith, old.1));
    wire_id = λ k there. elim (Bool-cases (n.next == k)) [
      | inl it ↦ ground arith
      | inr other ↦ omega (arith, v.wire_id k (λ gone. there (rw (wired_wires k, other) gone)))
    ];
    ends = wired_ends;
    ported = wired_ported;
  }

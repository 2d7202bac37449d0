-- ===== src/Routing/Shortest.antt =====
-- Shortest walks in the graphs of the tests, and a check of a row of distances.
use kensv.Prelude.{
  ℕ, zero, suc, ◌+◌, ◌≤◌, ◌<◌, ◌≡◌, sym, subst, inl, inr, Bool, true, false, ◌&&◌, ◌||◌, List, [],
  ◌∷◌, get_or, ltb, leb, ◌==◌, Bool-cases, arith,
}
use kensv.Prelude.Below.{all_below, all_below_lem}
use kensv.Routing.Graphs.{Edge}

-- An edge leads both ways.
unfoldable pub joins : (a b w : ℕ) → Edge → Bool
joins a b w (x, y, c) = (((x == a) && (y == b)) || ((x == b) && (y == a))) && (c == w)

unfoldable pub has_edge : List Edge → (a b w : ℕ) → Bool
has_edge [] a b w = false
has_edge (e ∷ g) a b w = joins a b w e || has_edge g a b w

-- The walks from `i`, with their costs.
pub data Walk (g : List Edge) (i : ℕ) : ℕ → ℕ → Type 0 where
  here : Walk g i i 0
  step : {a b c : ℕ} → (w : ℕ) → Walk g i a c → has_edge g a b w ≡ true → Walk g i b (c + w)

pub record IsShortest (g : List Edge) (i j cost : ℕ) : Type 0 where
  pub walk : Walk g i j cost
  pub least : (c : ℕ) → Walk g i j c → cost ≤ c

-- No edge shortens a distance.
abbrev at : List ℕ → ℕ → ℕ
at row k = get_or row k 0

unfoldable feasible : List ℕ → List Edge → Bool
feasible row [] = true
feasible row ((x, y, c) ∷ g) =
    leb (at row y) (at row x + c) && leb (at row x) (at row y + c) && feasible row g

-- Some edge reaches the distance of `b`.
unfoldable reaches : (routers : ℕ) → List ℕ → (b : ℕ) → List Edge → Bool
reaches n row b [] = false
reaches n row b ((x, y, c) ∷ g) =
    ((y == b) && ltb x n && ltb 0 c && (at row x + c == at row b))
    || ((x == b) && ltb y n && ltb 0 c && (at row y + c == at row b))
    || reaches n row b g

-- The check of the row of distances from `i`.
unfoldable pub is_row : (routers : ℕ) → List Edge → ℕ → List ℕ → Bool
unfolding feasible reaches
is_row n g i row =
    (at row i == 0) && feasible row g && all_below n (λ b. (b == i) || reaches n row b g)

feasible_lem :
    (row : List ℕ) (g : List Edge) (a b w : ℕ)
    → feasible row g ≡ true
    → has_edge g a b w ≡ true
    → at row b ≤ at row a + w
unfolding feasible has_edge joins
feasible_lem row [] a b w ok edge = cc
feasible_lem row ((x, y, c) ∷ g) a b w ok edge = elim (Bool-cases (joins a b w (x, y, c))) [
  | inl this ↦ grind arith
  | inr other ↦ feasible_lem row g a b w (ground arith) (ground arith)
]

reaches_lem :
    (n : ℕ) (row : List ℕ) (b : ℕ) (g : List Edge)
    → reaches n row b g ≡ true
    → (a : ℕ) × (w : ℕ) × (has_edge g a b w ≡ true) × (a < n) × (0 < w) × (at row a + w ≡ at row b)
unfolding reaches has_edge joins
reaches_lem n row b [] e = cc
reaches_lem n row b ((x, y, c) ∷ g) e =
    elim (Bool-cases ((y == b) && ltb x n && ltb 0 c && (at row x + c == at row b))) [
      | inl there ↦ (x, c, ground arith, ground arith, ground arith, ground arith)
      | inr not_there ↦
          elim (Bool-cases ((x == b) && ltb y n && ltb 0 c && (at row y + c == at row b))) [
            | inl back ↦ (y, c, ground arith, ground arith, ground arith, ground arith)
            | inr not_back ↦
                let (a, w, edge, inside, some_cost, sum) = reaches_lem n row b g (ground arith) in
                (a, w, ground arith, inside, some_cost, sum)
          ]
    ]

stay : (g : List Edge) (i b : ℕ) (row : List ℕ) → i ≡ b → at row i ≡ 0 → Walk g i b (at row b)
stay g i b row same none =
    subst (λ b. Walk g i b (at row b)) same (subst (Walk g i i) (sym none) here)

-- A walk to `b`, by the fuel that its distance is.
walk_to :
    (n : ℕ) (g : List Edge) (i : ℕ) (row : List ℕ)
    → is_row n g i row ≡ true
    → (fuel b : ℕ) → b < n
    → at row b ≤ fuel
    → Walk g i b (at row b)
unfolding is_row
walk_to n g i row ok zero b inside less = elim (Bool-cases (b == i)) [
  | inl home ↦ stay g i b row (ground arith) (ground arith)
  | inr away ↦
      let tight = all_below_lem n (λ b. (b == i) || reaches n row b g) b (ground arith) inside in
      let (a, w, edge, below, some_cost, sum) = reaches_lem n row b g (ground arith) in
      absurd (omega arith)
]
walk_to n g i row ok (suc fuel) b inside less = elim (Bool-cases (b == i)) [
  | inl home ↦ stay g i b row (ground arith) (ground arith)
  | inr away ↦
      let tight = all_below_lem n (λ b. (b == i) || reaches n row b g) b (ground arith) inside in
      let (a, w, edge, below, some_cost, sum) = reaches_lem n row b g (ground arith) in
      subst (Walk g i b) sum (step w (walk_to n g i row ok fuel a below (omega arith)) edge)
]

least_lem :
    (n : ℕ) (g : List Edge) (i : ℕ) (row : List ℕ)
    → is_row n g i row ≡ true
    → {j c : ℕ} → Walk g i j c
    → at row j ≤ c
unfolding is_row
least_lem n g i row ok here = ground arith
least_lem n g i row ok (step {a} {b} w walk edge) =
    omega (arith, least_lem n g i row ok walk, feasible_lem row g a b w (ground arith) edge)

-- A row that passes the check holds the costs of the shortest walks.
pub is_row-IsShortest :
    (n : ℕ) (g : List Edge) (i : ℕ) (row : List ℕ)
    → is_row n g i row ≡ true
    → (j : ℕ) → j < n
    → IsShortest g i j (get_or row j 0)
is_row-IsShortest n g i row ok j inside = record {
  walk = walk_to n g i row ok (get_or row j 0) j inside (omega arith);
  least = λ c walk. least_lem n g i row ok walk;
}

has_edge_comm : (g : List Edge) (a b w : ℕ) → has_edge g a b w ≡ true → has_edge g b a w ≡ true
unfolding has_edge joins
has_edge_comm [] a b w edge = cc
has_edge_comm ((x, y, c) ∷ g) a b w edge = ground (arith, has_edge_comm g a b w)

prepend :
    (g : List Edge) (x y w : ℕ)
    → has_edge g x y w ≡ true
    → {d c : ℕ} → Walk g y d c
    → Walk g x d (w + c)
prepend g x y w edge here =
    let e : 0 + w ≡ w + 0 = omega arith in subst (Walk g x y) e (step w here edge)
prepend g x y w edge (step {a} {b} {c} v walk last) =
    let e : w + c + v ≡ w + (c + v) = omega arith in
    subst (Walk g x b) e (step v (prepend g x y w edge walk) last)

back : (g : List Edge) (i : ℕ) {j c : ℕ} → Walk g i j c → Walk g j i c
back g i here = here
back g i (step {a} {b} {c} w walk edge) =
    let e : w + c ≡ c + w = omega arith in
    subst (Walk g b i) e (prepend g b a w (has_edge_comm g a b w edge) (back g i walk))

-- The costs of shortest walks between two routers agree, in both directions.
pub IsShortest-unique :
    (g : List Edge) (i j c d : ℕ) → IsShortest g i j c → IsShortest g i j d → c ≡ d
IsShortest-unique g i j c d s t = omega (arith, s.least d t.walk, t.least c s.walk)

pub IsShortest-comm : (g : List Edge) (i j c : ℕ) → IsShortest g i j c → IsShortest g j i c
IsShortest-comm g i j c s = record {
  walk = back g i s.walk;
  least = λ d walk. s.least d (back g j walk);
}

-- ===== src/Routing/Correct.antt =====
-- The tests of app/rip/testrip.cpp expect the costs of shortest walks, and accept the modules that find them.
use kensv.Prelude.{
  ℕ, zero, suc, ◌+◌, ◌≤◌, ◌<◌, ◌≡◌, refl, subst, Bool, true, ◌&&◌, ◌||◌, List, [], ◌∷◌, get_or, All,
  All-map, ltb, leb, ◌==◌, if◌then◌else◌, arith,
}
use kensv.Prelude.Below.{all_below, all_below_lem}
use kensv.Routing.Costs.{max_cost}
use kensv.Routing.Graphs.{Edge}
use kensv.Routing.Expected.{RouteTest, tests}
use kensv.Routing.Shortest.{IsShortest, is_row, is_row-IsShortest}

-- The largest metric of RIP.
abbrev max_metric : ℕ
max_metric = 15

-- The cost that a list expects between two routers.
unfoldable expected : List Edge → (i j : ℕ) → ℕ
expected [] i j = 0
expected ((x, y, c) ∷ tv) i j =
    let rest = expected tv i j in
    if ((x == i) && (y == j)) || ((x == j) && (y == i)) then c else rest

unfoldable row_from : (k n : ℕ) → List Edge → ℕ → List ℕ
row_from k zero tv i = []
row_from k (suc n) tv i = expected tv i k ∷ row_from (k + 1) n tv i

abbrev row_of : RouteTest → ℕ → List ℕ
row_of t i = row_from 0 t.routers t.test_vector i

-- The checks of a test, of its costs and of its expectations.
unfoldable costs_allowed : List Edge → Bool
costs_allowed [] = true
costs_allowed ((x, y, c) ∷ g) = ltb 0 c && leb c max_cost && costs_allowed g

unfoldable expects_rows : RouteTest → List Edge → Bool
expects_rows t [] = true
expects_rows t ((i, j, c) ∷ tv) =
    ltb i t.routers
    && ltb j t.routers
    && (get_or (row_of t i) j 0 == c)
    && leb c max_metric
    && expects_rows t tv

unfoldable is_right : RouteTest → Bool
unfolding expected row_from costs_allowed expects_rows is_row
is_right t =
    costs_allowed t.graph
    && all_below t.routers (λ i. is_row t.routers t.graph i (row_of t i))
    && expects_rows t t.test_vector

all_right : All (λ t. is_right t ≡ true) tests
unfolding is_right expected row_from costs_allowed expects_rows is_row all_below
all_right = (refl, (refl, (refl, (refl, (refl, (refl, (refl, (refl, (refl, (refl, tt))))))))))

-- Two routers of the test, and the cost of a shortest walk between them.
abbrev pub Expects : RouteTest → Edge → Type 0
Expects t e =
    (e.0 < t.routers) × (e.1 < t.routers) × (e.2 ≤ max_metric) × IsShortest t.graph e.0 e.1 e.2

-- What a test may expect.
pub record IsRight (t : RouteTest) : Type 0 where
  pub costs : All (λ e. (0 < e.2) × (e.2 ≤ max_cost)) t.graph
  pub expects : All (Expects t) t.test_vector

costs_allowed_lem :
    (g : List Edge) → costs_allowed g ≡ true → All (λ e. (0 < e.2) × (e.2 ≤ max_cost)) g
unfolding costs_allowed
costs_allowed_lem [] ok = tt
costs_allowed_lem ((x, y, c) ∷ g) ok =
    ((ground arith, ground arith), costs_allowed_lem g (ground arith))

expects_rows_lem :
    (t : RouteTest) (tv : List Edge)
    → all_below t.routers (λ i. is_row t.routers t.graph i (row_of t i)) ≡ true
    → expects_rows t tv ≡ true
    → All (Expects t) tv
unfolding expects_rows
expects_rows_lem t [] rows ok = tt
expects_rows_lem t ((i, j, c) ∷ tv) rows ok =
    let row =
      all_below_lem t.routers (λ i. is_row t.routers t.graph i (row_of t i)) i rows
        (ground arith) in
    let e : get_or (row_of t i) j 0 ≡ c = ground arith in
    (
      (
        ground arith,
        ground arith,
        ground arith,
        subst (IsShortest t.graph i j) e
            (is_row-IsShortest t.routers t.graph i (row_of t i) row j (ground arith)),
      ),
      expects_rows_lem t tv rows (ground arith),
    )

is_right-IsRight : (t : RouteTest) → is_right t ≡ true → IsRight t
unfolding is_right
is_right-IsRight t ok = record {
  costs = costs_allowed_lem t.graph (ground arith);
  expects = expects_rows_lem t t.test_vector (ground arith) (ground arith);
}

-- In every test, the costs of the edges are allowed, and what is expected between two routers is the
-- cost of a walk of which no walk between them costs less, and at most 15, the largest metric of RIP.
pub tests-IsRight : All IsRight tests
tests-IsRight = All-map (λ t. is_right t ≡ true) IsRight tests is_right-IsRight all_right

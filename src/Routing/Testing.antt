-- ===== src/Routing/Testing.antt =====
-- doTesting of app/rip/testrip.cpp and of app/pwospf/testpwospf.cpp: the costs that the routers find are
-- compared with those expected. `diagnose` is the answer of a router's assignment for an address.
use mathlib.Core.Option.{some-injective}
use kensv.Prelude.{
  ◌↔◌, sym, subst, ◌∙◌, inl, inr, Bool-cases, ℕ, zero, suc, ◌+◌, ◌≤◌, ◌<◌, ◌≡◌, refl, Bool, true,
  ◌&&◌, Option, some, List, [], ◌∷◌, All, ◌==◌, arith,
}
use kensv.Prelude.Maybe.{◌>>=◌}
use kensv.RoutingInfo.{RoutingInfo, get_ip_addr}
use kensv.Routing.Graphs.{Edge}
use kensv.Routing.Expected.{RouteTest}
use kensv.Routing.Shortest.{IsShortest, IsShortest-comm, IsShortest-unique}
use kensv.Routing.Correct.{Expects, IsRight}

-- What is asked of a router: its tables and its number of ports.
pub record Router : Type 0 where
  pub routing : RoutingInfo
  pub port_count : ℕ

-- The loop over the ports from `port_num` on, with `n` to go: whether every answer is the cost. `none` is a port without an
-- address.
unfoldable pub ports_agree : (ask : List ℕ → ℕ) → RoutingInfo → (port_num n cost : ℕ) → Option Bool
ports_agree ask r port_num zero cost = some true
ports_agree ask r port_num (suc n) cost = do
  ip ← get_ip_addr port_num r
  rest ← ports_agree ask r (port_num + 1) n cost
  some ((ask ip == cost) && rest)

module _ (diagnose : ℕ → List ℕ → ℕ) (routers : ℕ → Router) where
  -- `doTesting` of the test of RIP.
  unfoldable pub do_testing : List Edge → Option Bool
  do_testing [] = some true
  do_testing ((i, j, cost) ∷ test_vectors) = do
    there ← ports_agree (diagnose j) (routers i).routing 0 (routers i).port_count cost
    back ← ports_agree (diagnose i) (routers j).routing 0 (routers j).port_count cost
    rest ← do_testing test_vectors
    some (there && back && rest)

  -- `doTesting` of the test of PWOSPF, which asks for the first port of a router only.
  unfoldable pub do_testing_first : List Edge → Option Bool
  do_testing_first [] = some true
  do_testing_first ((i, j, cost) ∷ test_vectors) = do
    there ← ports_agree (diagnose j) (routers i).routing 0 1 cost
    back ← ports_agree (diagnose i) (routers j).routing 0 1 cost
    rest ← do_testing_first test_vectors
    some (there && back && rest)

-- What a loop yields that decides a property.
abbrev pub Decides : Option Bool → Type 0 → Type 0
Decides o P = (b : Bool) × (o ≡ some b) × ((b ≡ true) ↔ P)

-- The first ports of a router have addresses.
abbrev pub HasAddresses : (n : ℕ) → RoutingInfo → Type 0
HasAddresses n r = (k : ℕ) → k < n → (ip : List ℕ) × (get_ip_addr k r ≡ some ip)

-- The routers of the test have ports, each with an address.
abbrev pub Addressed : (routers : ℕ → Router) → RouteTest → Type 0
Addressed routers t =
    (i : ℕ)
    → i < t.routers
    → (0 < (routers i).port_count) × HasAddresses (routers i).port_count (routers i).routing

-- One entry of the vector, then the others.
entry-Decides :
    (there back rest : Option Bool) (P Q R : Type 0)
    → Decides there P
    → Decides back Q
    → Decides rest R
    → Decides (there >>= λ x. back >>= λ y. rest >>= λ z. some (x && y && z)) ((P × Q) × R)
entry-Decides there back rest P Q R (x, at_x, x_if) (y, at_y, y_if) (z, at_z, z_if) = (
  x && y && z,
  rw (at_x, at_y, at_z) refl,
  (
    λ all. ((x_if.0 (ground arith), y_if.0 (ground arith)), z_if.0 (ground arith)),
    λ ((p, q), r). ground (arith, x_if.1 p, y_if.1 q, z_if.1 r),
  ),
)

module _ (diagnose : ℕ → List ℕ → ℕ) (routers : ℕ → Router) (t : RouteTest) where
  -- For the addresses of router `i` at its ports from `k` on, `n` of them, router `j` answers the cost of a shortest walk.
  abbrev pub Answers : (i j k n : ℕ) → Type 0
  Answers i j k n =
      (port : ℕ) (ip : List ℕ)
      → k ≤ port
      → port < k + n
      → get_ip_addr port (routers i).routing ≡ some ip
      → IsShortest t.graph j i (diagnose j ip)

  -- The routers of an edge answer for each other.
  abbrev pub BothAnswer : (ports : ℕ → ℕ) → Edge → Type 0
  BothAnswer ports e = Answers e.0 e.1 0 (ports e.0) × Answers e.1 e.0 0 (ports e.1)

  ports_agree-Decides :
      (i j cost k n : ℕ)
      → HasAddresses (k + n) (routers i).routing
      → IsShortest t.graph j i cost
      → Decides (ports_agree (diagnose j) (routers i).routing k n cost) (Answers i j k n)
  unfolding ports_agree
  ports_agree-Decides i j cost k zero addresses short =
      (true, refl, ((λ e port ip from below. absurd (omega arith)), λ a. refl))
  ports_agree-Decides i j cost k (suc n) addresses short =
      let (ip, found) = addresses k (omega arith) in
      let (b, rest, (sound, complete)) =
        ports_agree-Decides i j cost (k + 1) n (λ m below. addresses m (omega arith)) short in
      (
        (diagnose j ip == cost) && b,
        rw (found, rest) refl,
        (
          λ both port ip' from below at_port. elim (Bool-cases (port == k)) [
            | inl first ↦
                let is_k : port ≡ k = ground arith in
                let at_k = subst (λ m. get_ip_addr m (routers i).routing ≡ some ip') is_k at_port in
                let same : ip ≡ ip' = some-injective _ _ (sym found ∙ at_k) in
                let right : cost ≡ diagnose j ip = ground arith in
                subst (λ ip. IsShortest t.graph j i (diagnose j ip)) same
                  (subst (IsShortest t.graph j i) right short)
            | inr later ↦ sound (ground arith) port ip' (ground arith) (omega arith) at_port
          ],
          λ answers.
              let right : diagnose j ip ≡ cost =
                IsShortest-unique t.graph j i (diagnose j ip) cost
                  (answers k ip (omega arith) (omega arith) found) short in
              let all : b ≡ true =
                complete (λ port ip' from below. answers port ip' (omega arith) (omega arith)) in
              ground (arith, right, all),
        ),
      )

  module _ (addressed : Addressed routers t) where
    do_testing-Decides :
        (tv : List Edge)
        → All (Expects t) tv
        → Decides
            (do_testing diagnose routers tv)
            (All (BothAnswer (λ i. (routers i).port_count)) tv)
    unfolding do_testing
    do_testing-Decides [] right = (true, refl, ((λ e. tt), λ a. refl))
    do_testing-Decides ((i, j, cost) ∷ tv) ((i_in, j_in, small, forth), others) =
        entry-Decides _ _ _ _ _ _
          (ports_agree-Decides i j cost 0 (routers i).port_count
            (λ k below. (addressed i i_in).1 k (omega arith))
            (IsShortest-comm t.graph i j cost forth))
          (ports_agree-Decides j i cost 0 (routers j).port_count
            (λ k below. (addressed j j_in).1 k (omega arith)) forth)
          (do_testing-Decides tv others)

    do_testing_first-Decides :
        (tv : List Edge)
        → All (Expects t) tv
        → Decides (do_testing_first diagnose routers tv) (All (BothAnswer (λ i. 1)) tv)
    unfolding do_testing_first
    do_testing_first-Decides [] right = (true, refl, ((λ e. tt), λ a. refl))
    do_testing_first-Decides ((i, j, cost) ∷ tv) ((i_in, j_in, small, forth), others) =
        let (some_i, at_i) = addressed i i_in in
        let (some_j, at_j) = addressed j j_in in
        entry-Decides _ _ _ _ _ _
          (ports_agree-Decides i j cost 0 1 (λ k below. at_i k (omega arith))
            (IsShortest-comm t.graph i j cost forth))
          (ports_agree-Decides j i cost 0 1 (λ k below. at_j k (omega arith)) forth)
          (do_testing_first-Decides tv others)

-- For a right test whose routers have ports, each with an address, the comparisons of both programs return,
-- and decide: that of the test of RIP succeeds exactly if, for each pair of routers in the vector, either router answers the cost of
-- a shortest walk for every address of the other; that of the test of PWOSPF exactly if it does so for the
-- address of the first port.
pub testing_decides :
    (t : RouteTest) (diagnose : ℕ → List ℕ → ℕ) (routers : ℕ → Router)
    → IsRight t
    → Addressed routers t
    → Decides
        (do_testing diagnose routers t.test_vector)
        (All (BothAnswer diagnose routers t (λ i. (routers i).port_count)) t.test_vector)
      × Decides
          (do_testing_first diagnose routers t.test_vector)
          (All (BothAnswer diagnose routers t (λ i. 1)) t.test_vector)
testing_decides t diagnose routers right addressed = (
  do_testing-Decides diagnose routers t addressed t.test_vector right.expects,
  do_testing_first-Decides diagnose routers t addressed t.test_vector right.expects,
)

-- ===== src/Routing/Costs.antt =====
-- The costs of app/rip/RIPAssignment.hpp (and, in the same words, of app/pwospf/PWOSPFAssignment.hpp):
-- the test makes the speed of a wire from the cost of its edge, and the assignment reads the cost off it.
use kensv.Prelude.{
  ℕ, zero, suc, ◌+◌, ◌*◌, ◌/◌, ◌%◌, ◌<◌, ◌≤◌, ◌≡◌, refl, Option, some, List, [], ◌∷◌, ◌==◌,
  if◌then◌else◌, arith, get_elem?, ◌-◌, not, ◌&&◌, true, false, ◌++◌, length,
}
use kensv.Prelude.Maybe.{◌>>=◌, ◌>>◌, assert}
use kensv.Prelude.Table.{lookup}
use kensv.Prelude.Below.{all_below, all_below_lem}
use kensv.Networking.{Network, wire_speed}

-- `std::lcm`, by Euclid's algorithm, for which the second number is fuel enough.
unfoldable gcd : (fuel a b : ℕ) → ℕ
gcd zero a b = a
gcd (suc fuel) a b = let rest = gcd fuel b (a % b) in if b == 0 then a else rest

unfoldable lcm : ℕ → ℕ → ℕ
unfolding gcd
lcm a b = a / gcd (b + 1) a b * b

abbrev pub max_cost : ℕ
max_cost = 20

-- `calc_cost_lcm`, which is called for numbers from 1 on.
unfoldable pub calc_cost_lcm : ℕ → ℕ
unfolding lcm gcd
calc_cost_lcm zero = 1
calc_cost_lcm (suc zero) = 1
calc_cost_lcm (suc (suc a)) = lcm (suc (suc a)) (calc_cost_lcm (suc a))

unfoldable pub cost_lcm : ℕ
unfolding calc_cost_lcm lcm gcd
cost_lcm = calc_cost_lcm max_cost

pub cost_lcm_value : cost_lcm ≡ 232792560
unfolding cost_lcm calc_cost_lcm lcm gcd
cost_lcm_value = refl

-- `CostLCM / cost` in setupGraph.
unfoldable pub speed_of : (cost : ℕ) → Option ℕ
speed_of cost = assert (not (cost == 0)) >> some (cost_lcm / cost)

-- `linkCost` of a port of a host, whose `ports` hold the wires.
unfoldable pub link_cost : (host port_num : ℕ) → Network → Option ℕ
link_cost host port_num n = do
  ports ← lookup host n.ports
  wire ← get_elem? ports port_num
  bps ← wire_speed wire n
  assert (not (bps == 0))
  some (cost_lcm / bps)

-- The cost is read off the speed, for every cost that is allowed.
costs_table :
    all_below 20 (λ c. not (cost_lcm / (c + 1) == 0) && (cost_lcm / (cost_lcm / (c + 1)) == c + 1))
    ≡ true
unfolding cost_lcm calc_cost_lcm lcm gcd all_below
costs_table = refl

pub cost_back :
    (cost : ℕ)
    → 0 < cost
    → cost ≤ max_cost
    → ((cost_lcm / cost == 0) ≡ false) × (cost_lcm / (cost_lcm / cost) ≡ cost)
cost_back cost some_cost allowed =
    let row =
      all_below_lem 20
        (λ c. not (cost_lcm / (c + 1) == 0) && (cost_lcm / (cost_lcm / (c + 1)) == c + 1))
        (cost - 1) costs_table (omega arith) in
    let back : cost - 1 + 1 ≡ cost = omega arith in let found = rw back at row in ground arith

pub elem-append : (xs : List ℕ) (x : ℕ) → get_elem? (xs ++ x ∷ []) (length xs) ≡ some x
elem-append [] x = refl
elem-append (y ∷ xs) x = elem-append xs x

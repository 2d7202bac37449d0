-- ===== src/Tests/Routes.antt =====
-- Two routers and an edge of cost 10.
use kensv.Prelude.{
  ℕ, zero, suc, ◌+◌, ◌<◌, ◌≡◌, refl, true, some, List, [], ◌∷◌, All, get_or, if◌then◌else◌, ◌==◌,
  arith,
}
use kensv.RoutingInfo.{get_ip_addr, find_ip}
use kensv.Routing.Expected.{custom_two_nodes}
use kensv.Routing.Correct.{tests-IsRight}
use kensv.Routing.Testing.{
  Router, ports_agree, do_testing, do_testing_first, Addressed, Decides, BothAnswer,
  testing_decides,
}

abbrev routers : ℕ → Router
routers i = record {
  routing = record {
    mac_vector = [];
    ip_vector = record { ip = 10 ∷ 0 ∷ 1 ∷ (i + 1) ∷ []; port = 0 } ∷ [];
    arp_vector = [];
    route_vector = [];
  };
  port_count = 1;
}

-- The distances, by the last byte of an address.
abbrev answer : ℕ → List ℕ → ℕ
answer j ip = if get_or ip 3 0 == j + 1 then 0 else 10

routers-Addressed : Addressed routers custom_two_nodes
unfolding get_ip_addr find_ip
routers-Addressed i inside = (omega arith, addresses)
  where
    addresses : (k : ℕ) → k < 1 → (ip : List ℕ) × (get_ip_addr k (routers i).routing ≡ some ip)
    addresses zero below = (10 ∷ 0 ∷ 1 ∷ (i + 1) ∷ [], refl)
    addresses (suc k) below = absurd (omega arith)

testing_decides_example :
    Decides (do_testing answer routers custom_two_nodes.test_vector) (
      All
        (BothAnswer answer routers custom_two_nodes (λ i. (routers i).port_count))
        custom_two_nodes.test_vector)
    × Decides
        (do_testing_first answer routers custom_two_nodes.test_vector)
        (All (BothAnswer answer routers custom_two_nodes (λ i. 1)) custom_two_nodes.test_vector)
testing_decides_example =
    testing_decides custom_two_nodes answer routers tests-IsRight.1.0 routers-Addressed

-- These answers are those of shortest walks, and both tests succeed.
both_succeed :
    (do_testing answer routers custom_two_nodes.test_vector ≡ some true)
    × (do_testing_first answer routers custom_two_nodes.test_vector ≡ some true)
unfolding do_testing do_testing_first ports_agree get_ip_addr find_ip
both_succeed = (refl, refl)

-- ===== src/Routing/Expected.antt =====
-- The costs that app/rip/testrip.cpp (and app/pwospf/testpwospf.cpp) expects between the routers of each of its graphs.
use kensv.Prelude.{ℕ, List, [], ◌∷◌}
use kensv.Routing.Graphs.{
  Edge, rip_two_nodes_graph, custom_two_nodes_graph, rip_1_graph, custom_1_graph, rip_2_graph,
  custom_2_graph, rip_3_graph, custom_3_graph, rip_4_graph, custom_4_graph,
}

-- A test, with the number of its routers.
pub record RouteTest : Type 0 where
  pub routers : ℕ
  pub graph : List Edge
  pub test_vector : List Edge

abbrev pub rip_two_nodes : RouteTest
rip_two_nodes = record { routers = 2; graph = rip_two_nodes_graph; test_vector = (0, 1, 1) ∷ [] }

abbrev pub custom_two_nodes : RouteTest
custom_two_nodes = record {
  routers = 2;
  graph = custom_two_nodes_graph;
  test_vector = (0, 1, 10) ∷ [];
}

abbrev pub rip_1 : RouteTest
rip_1 = record {
  routers = 4;
  graph = rip_1_graph;
  test_vector = (0, 1, 1) ∷ (0, 2, 1) ∷ (0, 3, 1) ∷ (1, 2, 1) ∷ (1, 3, 2) ∷ (2, 3, 1) ∷ [];
}

abbrev pub custom_1 : RouteTest
custom_1 = record {
  routers = 4;
  graph = custom_1_graph;
  test_vector = (0, 1, 1) ∷ (0, 2, 2) ∷ (0, 3, 4) ∷ (1, 2, 1) ∷ (1, 3, 3) ∷ (2, 3, 2) ∷ [];
}

abbrev pub rip_2 : RouteTest
rip_2 = record {
  routers = 7;
  graph = rip_2_graph;
  test_vector =
      (0, 1, 1)
      ∷ (0, 2, 1)
      ∷ (0, 3, 2)
      ∷ (0, 4, 2)
      ∷ (0, 5, 1)
      ∷ (0, 6, 2)
      ∷ (1, 2, 1)
      ∷ (1, 3, 1)
      ∷ (1, 4, 2)
      ∷ (1, 5, 2)
      ∷ (1, 6, 3)
      ∷ (2, 3, 1)
      ∷ (2, 4, 1)
      ∷ (2, 5, 1)
      ∷ (2, 6, 2)
      ∷ (3, 4, 1)
      ∷ (3, 5, 2)
      ∷ (3, 6, 2)
      ∷ (4, 5, 1)
      ∷ (4, 6, 1)
      ∷ (5, 6, 1)
      ∷ [];
}

abbrev pub custom_2 : RouteTest
custom_2 = record {
  routers = 7;
  graph = custom_2_graph;
  test_vector =
      (0, 1, 2)
      ∷ (0, 2, 4)
      ∷ (0, 3, 5)
      ∷ (0, 4, 7)
      ∷ (0, 5, 7)
      ∷ (0, 6, 15)
      ∷ (1, 2, 3)
      ∷ (1, 3, 3)
      ∷ (1, 4, 6)
      ∷ (1, 5, 9)
      ∷ (1, 6, 14)
      ∷ (2, 3, 4)
      ∷ (2, 4, 3)
      ∷ (2, 5, 8)
      ∷ (2, 6, 11)
      ∷ (3, 4, 6)
      ∷ (3, 5, 12)
      ∷ (3, 6, 14)
      ∷ (4, 5, 6)
      ∷ (4, 6, 8)
      ∷ (5, 6, 12)
      ∷ [];
}

abbrev pub rip_3 : RouteTest
rip_3 = record {
  routers = 5;
  graph = rip_3_graph;
  test_vector =
      (0, 1, 1)
      ∷ (0, 2, 2)
      ∷ (0, 3, 1)
      ∷ (0, 4, 2)
      ∷ (1, 2, 1)
      ∷ (1, 3, 2)
      ∷ (1, 4, 1)
      ∷ (2, 3, 1)
      ∷ (2, 4, 1)
      ∷ (3, 4, 2)
      ∷ [];
}

abbrev pub custom_3 : RouteTest
custom_3 = record {
  routers = 5;
  graph = custom_3_graph;
  test_vector =
      (0, 1, 1)
      ∷ (0, 2, 4)
      ∷ (0, 3, 2)
      ∷ (0, 4, 6)
      ∷ (1, 2, 3)
      ∷ (1, 3, 3)
      ∷ (1, 4, 5)
      ∷ (2, 3, 3)
      ∷ (2, 4, 2)
      ∷ (3, 4, 5)
      ∷ [];
}

abbrev pub rip_4 : RouteTest
rip_4 = record {
  routers = 9;
  graph = rip_4_graph;
  test_vector =
      (0, 1, 1)
      ∷ (0, 2, 2)
      ∷ (0, 3, 1)
      ∷ (0, 4, 2)
      ∷ (0, 5, 3)
      ∷ (0, 6, 2)
      ∷ (0, 7, 3)
      ∷ (0, 8, 4)
      ∷ (1, 2, 1)
      ∷ (1, 3, 2)
      ∷ (1, 4, 1)
      ∷ (1, 5, 2)
      ∷ (1, 6, 3)
      ∷ (1, 7, 2)
      ∷ (1, 8, 3)
      ∷ (2, 3, 3)
      ∷ (2, 4, 2)
      ∷ (2, 5, 3)
      ∷ (2, 6, 4)
      ∷ (2, 7, 3)
      ∷ (2, 8, 4)
      ∷ (3, 4, 1)
      ∷ (3, 5, 2)
      ∷ (3, 6, 1)
      ∷ (3, 7, 2)
      ∷ (3, 8, 3)
      ∷ (4, 5, 1)
      ∷ (4, 6, 2)
      ∷ (4, 7, 1)
      ∷ (4, 8, 2)
      ∷ (5, 6, 3)
      ∷ (5, 7, 2)
      ∷ (5, 8, 1)
      ∷ (6, 7, 1)
      ∷ (6, 8, 2)
      ∷ (7, 8, 1)
      ∷ [];
}

abbrev pub custom_4 : RouteTest
custom_4 = record {
  routers = 9;
  graph = custom_4_graph;
  test_vector =
      (0, 1, 3)
      ∷ (0, 2, 4)
      ∷ (0, 3, 1)
      ∷ (0, 4, 2)
      ∷ (0, 5, 3)
      ∷ (0, 6, 2)
      ∷ (0, 7, 3)
      ∷ (0, 8, 4)
      ∷ (1, 2, 1)
      ∷ (1, 3, 2)
      ∷ (1, 4, 1)
      ∷ (1, 5, 2)
      ∷ (1, 6, 3)
      ∷ (1, 7, 2)
      ∷ (1, 8, 3)
      ∷ (2, 3, 3)
      ∷ (2, 4, 2)
      ∷ (2, 5, 3)
      ∷ (2, 6, 4)
      ∷ (2, 7, 3)
      ∷ (2, 8, 4)
      ∷ (3, 4, 1)
      ∷ (3, 5, 2)
      ∷ (3, 6, 1)
      ∷ (3, 7, 2)
      ∷ (3, 8, 3)
      ∷ (4, 5, 1)
      ∷ (4, 6, 2)
      ∷ (4, 7, 1)
      ∷ (4, 8, 2)
      ∷ (5, 6, 3)
      ∷ (5, 7, 2)
      ∷ (5, 8, 1)
      ∷ (6, 7, 1)
      ∷ (6, 8, 2)
      ∷ (7, 8, 1)
      ∷ [];
}

abbrev pub tests : List RouteTest
tests =
    rip_two_nodes ∷ custom_two_nodes ∷ rip_1 ∷ custom_1 ∷ rip_2 ∷ custom_2 ∷ rip_3 ∷ custom_3
    ∷ rip_4 ∷ custom_4 ∷ []

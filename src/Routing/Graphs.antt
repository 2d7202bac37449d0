-- ===== src/Routing/Graphs.antt =====
-- The graphs of app/rip/testrip.cpp (and of app/pwospf/testpwospf.cpp, which has the same): routers by
-- number, and edges with their costs.
use kensv.Prelude.{ℕ, List, [], ◌∷◌}

-- `std::tuple<size_t, size_t, size_t>`: two routers and a cost.
abbrev pub Edge : Type 0
Edge = ℕ × ℕ × ℕ

abbrev pub rip_two_nodes_graph : List Edge
rip_two_nodes_graph = (0, 1, 1) ∷ []

abbrev pub custom_two_nodes_graph : List Edge
custom_two_nodes_graph = (0, 1, 10) ∷ []

abbrev pub rip_1_graph : List Edge
rip_1_graph = (0, 1, 1) ∷ (0, 2, 1) ∷ (0, 3, 1) ∷ (1, 2, 1) ∷ (2, 3, 1) ∷ []

abbrev pub custom_1_graph : List Edge
custom_1_graph = (0, 1, 1) ∷ (0, 2, 3) ∷ (0, 3, 7) ∷ (1, 2, 1) ∷ (2, 3, 2) ∷ []

abbrev pub rip_2_graph : List Edge
rip_2_graph =
    (0, 1, 1)
    ∷ (0, 2, 1)
    ∷ (0, 5, 1)
    ∷ (1, 2, 1)
    ∷ (1, 3, 1)
    ∷ (2, 3, 1)
    ∷ (2, 4, 1)
    ∷ (2, 5, 1)
    ∷ (3, 4, 1)
    ∷ (4, 5, 1)
    ∷ (4, 6, 1)
    ∷ (5, 6, 1)
    ∷ []

abbrev pub custom_2_graph : List Edge
custom_2_graph =
    (0, 1, 2)
    ∷ (0, 2, 4)
    ∷ (0, 5, 7)
    ∷ (1, 2, 3)
    ∷ (1, 3, 3)
    ∷ (2, 3, 4)
    ∷ (2, 4, 3)
    ∷ (2, 5, 8)
    ∷ (3, 4, 6)
    ∷ (4, 5, 6)
    ∷ (4, 6, 8)
    ∷ (5, 6, 12)
    ∷ []

abbrev pub rip_3_graph : List Edge
rip_3_graph = (0, 1, 1) ∷ (0, 3, 1) ∷ (1, 2, 1) ∷ (1, 4, 1) ∷ (2, 3, 1) ∷ (2, 4, 1) ∷ []

abbrev pub custom_3_graph : List Edge
custom_3_graph = (0, 1, 1) ∷ (0, 3, 2) ∷ (1, 2, 3) ∷ (1, 4, 6) ∷ (2, 3, 3) ∷ (2, 4, 2) ∷ []

abbrev pub rip_4_graph : List Edge
rip_4_graph =
    (0, 1, 1)
    ∷ (0, 3, 1)
    ∷ (1, 2, 1)
    ∷ (1, 4, 1)
    ∷ (3, 4, 1)
    ∷ (3, 6, 1)
    ∷ (4, 5, 1)
    ∷ (4, 7, 1)
    ∷ (5, 8, 1)
    ∷ (6, 7, 1)
    ∷ (7, 8, 1)
    ∷ []

abbrev pub custom_4_graph : List Edge
custom_4_graph =
    (0, 1, 8)
    ∷ (0, 3, 1)
    ∷ (1, 2, 1)
    ∷ (1, 4, 1)
    ∷ (3, 4, 1)
    ∷ (3, 6, 1)
    ∷ (4, 5, 1)
    ∷ (4, 7, 1)
    ∷ (5, 8, 1)
    ∷ (6, 7, 1)
    ∷ (7, 8, 1)
    ∷ []

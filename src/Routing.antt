-- ===== src/Routing.antt =====
-- app/rip/testrip.cpp, app/rip/RIPAssignment.hpp and the same code in app/pwospf/: the networks on which
-- routing is tested, up to the assignments themselves, which are templates.
pub mod Costs
pub mod Kept
pub mod Addresses
pub mod Graphs
pub mod Expected
pub mod Shortest
pub mod Correct
pub mod Testing
pub mod Setup
pub mod Ends
pub mod Ready

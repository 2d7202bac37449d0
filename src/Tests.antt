-- ===== src/Tests.antt =====
-- Concrete runs, in which the conditions of the theorems hold.
mod Core
mod Links
mod Hosts
mod Nets
mod Switches
mod Calls
mod Threads
mod Transfers
mod Routes
mod Beds
mod Packets
mod Way
mod Clients
mod Topology

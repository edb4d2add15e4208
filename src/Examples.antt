-- ===== src/Examples.antt =====
-- Concrete pools, resources and clients, and the theorems at them.
pub mod Fixtures
pub mod Runs
pub mod Stores
pub mod Pools
pub mod Requests
pub mod Races
pub mod Providers
pub mod Machines
pub mod Nodes
pub mod Hosts
pub mod Scenarios
pub mod Startup
pub mod Growing
pub mod Circulation

-- ===== src/Tests.antt =====
-- Runs of the code of include/hwmalloc and src on small inputs.
pub mod Setting
pub mod Pools
pub mod Sizes
pub mod Users
pub mod Heaps
pub mod Environment
pub mod Pointers
pub mod Nodes
pub mod Races
pub mod Alone
pub mod Copies
pub mod Arrays

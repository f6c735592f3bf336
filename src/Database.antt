-- ===== src/Database.antt =====
-- src/database.cpp and include/database.hpp.
pub mod State
pub mod Names
pub mod Glob
pub mod Keyspace
pub mod Strings
pub mod Expiry
pub mod Lists
pub mod Hashes
pub mod Sets
pub mod Invariant
pub mod Live
pub mod Typed
pub mod Preserves
pub mod Eviction
pub mod Cycle
pub mod Reach
pub mod Refine
pub mod Filled
pub mod Tests

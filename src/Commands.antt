-- ===== src/Commands.antt =====
-- src/commands.cpp and include/commands.hpp.
pub mod Text
pub mod Processor
pub mod Server
pub mod Keyspace
pub mod Strings
pub mod Lists
pub mod Hashes
pub mod Sets
pub mod Table
pub mod Execute
pub mod Runs
pub mod Answers
pub mod Tests

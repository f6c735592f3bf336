-- ===== src/Database/Preserves.antt =====
-- Every operation of `Database` keeps the invariant, whether it returns or throws.
pub mod Strings
pub mod Lists
pub mod Hashes
pub mod Sets
pub mod Expiry

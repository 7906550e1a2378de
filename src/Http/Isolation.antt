-- ===== src/Http/Isolation.antt =====
-- The HTTP routes: what a request of one tenant leaves to another.
pub mod Tables
pub mod NamedTables
pub mod View
pub mod Deletion
pub mod Serve

-- ===== src/Apply.antt =====
-- internal/target/apply: mutations to the rows of a target table.
pub mod Config
pub mod Mapping
pub mod Numbers
pub mod Args
pub mod Deletes
pub mod Conflicts
pub mod Upserts
pub mod Refresh
pub mod Vars
mod Tests
pub mod Columns
pub mod Batching

-- ===== src/Restore.antt =====
-- restore/database.rs and restore/error_exclusions.rs: writing a dump into a target database.
pub mod Exclusions
pub mod Sink
pub mod Batch
pub mod Scripts
pub mod Accounts
pub mod Collection
pub mod Complete
pub mod Run
pub mod Total
pub mod Parallel
pub mod Default
pub mod Tests

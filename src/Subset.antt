-- ===== src/Subset.antt =====
-- subset/database_subsetting.rs: the referentially intact subset. `Worklist` is the traversal's
-- state; `Engine` its operations.
pub mod Worklist
pub mod Engine
pub mod Search
pub mod Walk
pub mod Fuel
pub mod Closure
pub mod Correct
pub mod Exact
pub mod Grouped
pub mod Ends
pub mod Tests

-- ===== src/Condition.antt =====
-- transform/condition.rs: `when` conditions. `Scan` cuts the text outside quotes, `Literal` reads
-- literals and compares values, `Eval` evaluates a condition on a document and `Filter` turns it
-- into a MongoDB filter. Positions count characters; the source counts the bytes of the same text,
-- and only to slice it there.
pub mod Scan
pub mod Literal
pub mod Eval
pub mod Filter
pub mod Quotes
pub mod Split
pub mod Find
pub mod Literals
pub mod Returns
pub mod Tests

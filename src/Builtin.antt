-- ===== src/Builtin.antt =====
-- transform/builtin.rs: the transformers that come with the program. The names and their factories
-- are in `Register`, the closures that they build in `Numbers` and `Values`.
pub mod Support
pub mod Numbers
pub mod Values
pub mod Register
pub mod Laws
pub mod Required
pub mod Each
pub mod Total
pub mod Tests

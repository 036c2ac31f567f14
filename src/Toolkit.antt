-- ===== src/Toolkit.antt =====
-- toolkit.rs: the parameter framework. `Yaml` is the configuration value and its conversion,
-- `Params` the declarations, `Values` the values of the parameters, `Cast` the casts to a declared
-- type, `Static` the validation of the configured parameters.
pub mod Yaml
pub mod Params
pub mod Values
pub mod Cast
pub mod Kinds
pub mod Static
pub mod Declared
pub mod Sample
pub mod Tests

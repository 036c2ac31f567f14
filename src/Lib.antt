-- ===== src/Lib.antt =====
-- leafmask dumps, masks, subsets and restores MongoDB databases. This library models its core.
--
-- The parts, and the files that model them:
--
--   Prelude, Bson   texts as lists of character codes, signed integers, `Result` of src/error.rs
--                   and calls that may panic; BSON values. A document is its list of fields; how
--                   the bson crate reads and writes one is the argument `BsonApi`, with the laws
--                   of get and insert, and floating-point numbers are the argument `StdApi`.
--   FieldPath       get_path and set_path of src/transform/apply.rs, on dotted paths.
--   Condition       src/transform/condition.rs: Scan (split_top, find_op, find_word_op), Literal
--                   (parse_literal, parse_list, bson_eq), Eval (Condition::eval) and Filter
--                   (Condition::to_filter). A slice that panics is the value `panics`;
--                   offsets are in bytes, and a slice off a character boundary panics
--                   (Prelude/Slices).
--   Toolkit         src/toolkit.rs: Params (declarations, with Params::get of src/config.rs), Values,
--                   Cast, Static (validate_static) and Yaml (yaml_to_bson).
--   Reference       src/subset/virtual_references.rs: declared references and their graph.
--   Subset          src/subset/database_subsetting.rs. Worklist holds `admit` and the loop of
--                   `traverse`, Engine the operations of SubsetEngine over a DocumentSource. The
--                   map that `compute` returns is an association list in the order of first
--                   insertion where the source sorts by collection.
--   Inheritance     src/transform/inheritance.rs over that graph; Configs holds the configuration.
--   Dump            DocumentReader of src/dump/mod.rs. Its Read is the bytes that it will deliver,
--                   followed by the end of the stream or by an I/O error. Storage has the trait
--                   of src/storage/mod.rs as a parameter, and what src/dump/mod.rs keeps
--                   there: metadata, `latest`, a collection's structure.
--                   Listing lists, shows and deletes dumps (src/dump/management.rs).
--   Restore         src/restore/error_exclusions.rs, the MongoSink trait of src/mongo.rs and, of
--                   src/restore/database.rs, the restore of one collection (Collection), the run
--                   with one job (Run) and the workers of a parallel one (Parallel: a step
--                   relation, with one turn for each access of the shared cursor, flag and
--                   slots, and one for the restore of a collection), with the hooks of
--                   src/restore/scripts.rs (Scripts). The target database is a state that each
--                   sink operation passes on.
--   Management      retention and pruning of src/dump/management.rs. Rules and Recent describe
--                   the rules and the rank of a dump without the code's loops.
--   Apply           the compiled plan of src/transform/apply.rs and its `transform`, over an argument
--                   `Toolbox` for what builds and runs transformers; Compile compiles a plan, with
--                   the toolbox that the registry and the toolkit give.
--   Dynamic         src/transform/dynamic.rs.
--   Registry        the registry of src/transform/mod.rs; a factory's `build` is any function.
--   Hash            src/hash.rs, over SHA-256 as the argument `Sha256`.
--   Builtin         src/transform/builtin.rs: the closures (Numbers, Values), their factories and
--                   register_all (Register), over the arguments `FloatApi`, `HexApi`, `RegexApi`.
--   Config          src/config.rs: locate, interpolate_env and the check of section keys.
--   Validate        src/validate/schema_diff.rs, over the == of the bson crate; Live has the
--                   comparison of a dump with the live deployment.
--
-- How they interact: a subset is seeded by conditions and follows the references of the graph; the
-- same graph propagates transformations. A restore reads batches from the dump's reader, inserts
-- them through the sink, consults the exclusions for each failure, and creates the indexes.
--
-- Fuel: `walk` runs as many rounds as there are keys in the database, `insert_from` one for each
-- document of the batch, `insert_loop` one more than the blob has bytes, `set_path_fuel` one more
-- than the path has characters, `hash_loop` one for each byte asked for; `none` means out of
-- fuel, and the results show that it is not reached. Counters of 64 bits are natural numbers:
-- they count documents read from one blob.
--
-- Not modelled: messages and logging; the MongoDB driver, the storage backends and other I/O; the
-- default bodies of the traits DocumentSource (`seed`) and Storage (`put_file`, `get_reader`), which
-- a backend may override; overflow checks, which a release build leaves out; the command line; custom
-- transformers.
pub mod Prelude
pub mod Bson
pub mod FieldPath
pub mod Condition
pub mod Toolkit
pub mod Reference
pub mod Subset
pub mod Inheritance
pub mod Dump
pub mod Restore
pub mod Management
pub mod Apply
pub mod Hash
pub mod Builtin
pub mod Config
pub mod Dynamic
pub mod Registry
pub mod Validate

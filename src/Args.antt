-- ===== src/Args.antt =====
-- src/args.rs: the configuration and the parser of the command line.
pub mod Types
pub mod Spellings
pub mod Options
pub mod Values
pub mod Parse

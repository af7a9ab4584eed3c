-- ===== src/Pipeline.antt =====
-- src/lib.rs: from the entries that the walk visits to the bytes that the program writes.
pub mod Batch
pub mod Output
pub mod Patterns
pub mod Visitor
pub mod Worker

-- ===== src/Walk/Unix.antt =====
-- src/walk/unix.rs, as built for Linux: the leaf operations of the walker over system calls.
pub mod Sys
pub mod Leaf

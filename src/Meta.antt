-- ===== src/Meta.antt =====
-- src/meta.rs: the predicates that need a `stat`. One child for each kind of predicate; `Predicates`
-- joins them, and `Nss` has the lookups of users and groups.
pub mod Compare
pub mod Size
pub mod Mask
pub mod Fields
pub mod Time
pub mod Symbolic
pub mod Perm
pub mod Predicates
pub mod Nss

-- ===== src/Relation.antt =====
-- src/subtyping.rs: the relations between types. They read types only through `TypeArena::get`,
-- which is the interface `View`; `Arena` fills it.
pub mod View
pub mod Disjoint
pub mod Empty
pub mod Subtype
pub mod Structural

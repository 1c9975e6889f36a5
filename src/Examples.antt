-- ===== src/Examples.antt =====
-- Small concrete types and arenas, with the theorems applied to them.
pub mod Sample
mod Types
mod Relations
mod Arenas
mod Caches
mod Unions
mod Narrowing
mod Shapes
mod Graphs
mod Files
mod Hashes

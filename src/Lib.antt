-- ===== src/Lib.antt =====
-- ts-rust is a type checker for TypeScript. Its core is a store of types, the arena, in which a type
-- is a number; relations that read the store; and a cache of their answers. The bridge, which walks
-- the syntax tree, asks only the cached queries.
--
-- What stands where:
--   Types            src/types.rs: `Type` and what it is made of; `Types.Equality` is the equality
--                    that the intern tables use, `Types.Object` is `ObjectType::new`.
--   Arena            src/arena.rs: `TypeArena`. `Arena.Store` has `new` and `push`, `Arena.Read` has
--                    `get` and the other ways of reading an id, `Arena.Alloc` has `alloc` with its
--                    two tables, `Arena.Declare` the declarations, from `alloc_ref` through
--                    `resolve_ref` to `clear`, `Arena.Scan` the memo of type parameters,
--                    `Arena.Union` is `alloc_union`.
--   Relation         src/subtyping.rs: `Relation.Subtype` is `is_subtype`, `Relation.Disjoint` is
--                    `is_disjoint`; `Relation.Empty` is `intersection_reduces_to_never` of
--                    src/arena.rs, without its memo, and `Relation.Structural` is
--                    `structurally_equal` of src/arena.rs. All but the last read the arena
--                    through `Relation.View`, what `get` returns for each id with the laws of a
--                    well-formed arena; `Arena.Read.Sound.view` makes one of an arena.
--   Queries          src/semantic/queries.rs: `RelationCache` and `SemanticQueries`.
--   SymbolMap        src/symbol_map.rs.
--   LineIndex        src/line_index.rs.
--   Narrow           src/bridge/narrow.rs, what a branch knows: `NarrowState` with its operations,
--                    and `join_states` in `Narrow.Join`. `Narrow.Members` has the narrowings that
--                    drop members of a union, by truth and by `null` and `undefined`;
--                    `Narrow.Each` those that may put other types in a member's place, by `typeof`
--                    and to literals (`narrow_by_literals` where the equality holds), and
--                    `Narrow.Property` those of a union by a property of its members.
--                    `Narrow.Values` says what the tests give at run time. The symbols
--                    of the semantic analysis are a parameter with a decided equality.
--   Scc              src/scc.rs: `components` with its own stack of frames, `component_of` and
--                    `layers`. Each part of what the search keeps has a module of its own:
--                    `Scc.Counted` the numbers and the stack, `Scc.Linked` the links and the
--                    dependencies that were looked at, `Scc.Keeps` all of it.
--   Modules          src/module_resolution/graph.rs: `assemble`, which makes the tables of the module
--                    graph from the import edges and calls `Scc` for components and layers, and
--                    `cycles`.
--   FxHash           src/fxhash.rs: `FxHasher`. No other part depends on it.
--   Assoc            association lists: the vectors of `NarrowState`.
--   Examples         small inputs, with the theorems applied to them.
--
-- State is passed from hand to hand: an operation on `&mut self` takes the record and returns it. A
-- hash map is an association list with the newest entry first; a `HashMap` of the standard library
-- promises no more than its lookups. The digests of a type and of a list of members are parameters,
-- and the theorems hold for every digest. Ids are 32-bit numbers; that an arena has a slot free is a
-- hypothesis. A panic, an index out of bounds, is `none`.
--
-- These loops run on fuel. `get` follows wrappers and one declaration: a wrapper is allocated after
-- what it wraps and a body is an object, so two rounds more than there are ids are enough.
-- `is_subtype` never compares a pair of ids inside itself, so one level more than there are pairs of
-- ids is enough. `is_disjoint` calls itself on the members of a union, which are no unions, so three
-- levels are enough. `structurally_equal` never compares a pair of objects inside itself, and a type
-- that is no object names smaller ids only. The search of `components` makes a round for each
-- dependency and one for each node. The loop of `alloc_union` pops each member once, and each
-- member of a member once more, since the members of a union are no unions. The loop of a hash
-- over the bytes of a text takes eight in a round. That the fuel is enough is part of what is proved.
--
-- A text is the list of its UTF-8 bytes, and an `f64` is its bit pattern.
--
-- Not modelled: `alloc_intersection`, `build_enum` and `structurally_equal_cached` of the arena,
-- inference and substitution (src/semantic/generics.rs, src/semantic/solver.rs), the rest of narrowing
-- (by the presence of a property and by `instanceof`, the exclusion of literals, and the recognition of
-- a condition in the syntax tree), the rest of the module graph (the walk over the files and their
-- renumbering), its copy in petgraph, and all that walks the syntax tree of the parser or does I/O.
pub mod Prelude
pub mod Assoc
pub mod Types
pub mod Relation
pub mod Arena
pub mod Queries
pub mod SymbolMap
pub mod Narrow
pub mod Scc
pub mod Modules
pub mod FxHash
pub mod LineIndex
pub mod Examples

-- ===== src/Arena.antt =====
-- src/arena.rs: the store of types. A `TypeId` is a slot number of 32 bits. The intern tables map a
-- digest of a type's content to the ids that hold it; the digest, the `Hasher` of the standard
-- library's derived hashes over `FxHasher`, is the parameter `digest`, and nothing proved depends on
-- which function it is.
pub mod Store
pub mod Read
pub mod Alloc
pub mod Declare
pub mod Scan
pub mod Union
use ts_rust.Prelude.{ℕ, Bool, List, Option}
use ts_rust.Types.{TypeId, DeclSlot, Name, Ty}

pub data DeclState : Type 0 where
  resolving : DeclState
  resolved : TypeId → DeclState
  failed : DeclState
  name_only : DeclState

pub record DeclInfo : Type 0 where
  pub state : DeclState
  pub name : Option Name

pub record TypeArena : Type 0 where
  pub types : List Ty
  pub builtin_slots : List (Name × DeclSlot)
  pub interned : List (ℕ × TypeId)
  pub collided : List (ℕ × List TypeId)
  pub interned_unions : List (ℕ × TypeId)
  pub param_scan : List ℕ
  pub equality_cache : List (TypeId × TypeId × Bool)
  pub empty_intersections : List (TypeId × Bool)
  pub generation : ℕ
  pub decls : List DeclInfo
  pub enum_types : List TypeId

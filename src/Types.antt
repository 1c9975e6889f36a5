-- ===== src/Types.antt =====
-- src/types.rs: the semantic types. A `TypeId` is an index into the arena and a `DeclSlot` an index
-- into its declarations, both plain numbers; a text is the list of its UTF-8 bytes, so that `cmp`
-- is the byte order of `str`; an `f64` is its bit pattern (`to_bits`).
pub mod Number
pub mod Fixed
pub mod Names
pub mod Equality
pub mod Object
use ts_rust.Prelude.{ℕ, Bool, List, Option}

abbrev pub TypeId : Type 0
TypeId = ℕ

abbrev pub DeclSlot : Type 0
DeclSlot = ℕ

abbrev pub FileId : Type 0
FileId = ℕ

abbrev pub Name : Type 0
Name = List ℕ

pub record TypeParameterId : Type 0 where
  pub file_id : FileId
  pub declaration_span_start : ℕ
  pub parameter_index : ℕ

pub record FunctionTypeParam : Type 0 where
  pub id : TypeParameterId
  pub name : Name
  pub constraint : Option TypeId
  pub default : Option TypeId

pub record Param : Type 0 where
  pub type_id : TypeId
  pub optional : Bool
  pub rest : Bool
  pub name : Option Name

pub record FunctionType : Type 0 where
  pub params : List Param
  pub return_type : TypeId
  pub type_params : List FunctionTypeParam
  pub is_untyped : Bool

pub record PropertyEntry : Type 0 where
  pub name : Name
  pub type_id : TypeId
  pub optional : Bool
  pub is_method : Bool

pub record ObjectType : Type 0 where
  pub properties : List PropertyEntry

-- `Type`, under another name since that one is the universe's.
pub data Ty : Type 0 where
  number string boolean null undefined any unknown error : Ty
  function : FunctionType → Ty
  object : ObjectType → Ty
  array : TypeId → Ty
  union : List TypeId → Ty
  string_literal : Name → Ty
  number_literal : ℕ → Ty
  boolean_literal : Bool → Ty
  never void : Ty
  generic_parameter : TypeParameterId → Name → Option TypeId → Ty
  ref : DeclSlot → Ty
  named : DeclSlot → TypeId → Ty
  app : DeclSlot → List TypeId → TypeId → Ty
  intersection : List TypeId → Ty

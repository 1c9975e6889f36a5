-- ===== src/Narrow/Property/Literals.antt =====
-- Narrowing by what literals a property may equal, on values.
use ts_rust.Prelude.{ℕ, ◌<◌, ◌^◌, Bool, List, Option, none, some, length}
use ts_rust.Types.{TypeId, Name}
use ts_rust.Relation.Subtype.Unroll.{yes_only}
use ts_rust.Arena.{TypeArena}
use ts_rust.Arena.Read.{get}
use ts_rust.Arena.Read.Sound.{value}
use ts_rust.Arena.Union.Flatten.{AllBelow}
use ts_rust.Arena.Union.Sound.{IsWell}
use ts_rust.Narrow.Each.Gather.{members}
use ts_rust.Narrow.Property.{property_type, keep_member, candidates_match}
use ts_rust.Narrow.Property.Common.{CandidatesMust, CandidatesMay}

-- What the candidates are for the type of a member's property: it must be kept if the member has no
-- such property.
abbrev pub MemberMust : TypeArena → List TypeId → Bool → Option TypeId → Type 0
MemberMust a literals want none = Unit
MemberMust a literals want (some i) = CandidatesMust a literals want (members a i)

abbrev pub MemberMay : TypeArena → List TypeId → Bool → Option TypeId → Type 0
MemberMay a literals want none = Unit
MemberMay a literals want (some i) = CandidatesMay a literals want (members a i)

abbrev pub property_of : TypeArena → Name → TypeId → Option TypeId
property_of a property m = property_type property (value (get a m))

module _ (digest : List TypeId → ℕ) (a : TypeArena) (well : IsWell a)
    (room : length a.types < 2 ^ 32) (literals : List TypeId)
    (below : AllBelow (length a.types) literals) where
  -- Whether a member is kept.
  abbrev pub keeps : Name → Bool → TypeId → Bool
  keeps property want m = yes_only (keep_member a property (candidates_match a literals want) m)

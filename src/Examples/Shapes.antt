-- ===== src/Examples/Shapes.antt =====
-- A union of two objects that their property `a` tells apart, on the arena of `Examples.Unions`.
use ts_rust.Prelude.{[], ◌∷◌, ◌++◌}
use ts_rust.Types.{TypeId, ObjectType, object, union}
use ts_rust.Arena.{TypeArena}
use ts_rust.Examples.Sample.{name_a, property}
use ts_rust.Examples.Unions.{words}

abbrev shape : TypeId → ObjectType
shape kind = record { properties = property name_a kind ∷ [] }

abbrev one_shape : TypeArena
one_shape = record words {
  types = words.types ++ object (shape 10) ∷ [];
  collided = (0, 11 ∷ 12 ∷ []) ∷ words.collided;
}

abbrev two_shapes : TypeArena
two_shapes = record one_shape {
  types = one_shape.types ++ object (shape 11) ∷ [];
  collided = (0, 11 ∷ 12 ∷ 13 ∷ []) ∷ one_shape.collided;
}

abbrev shapes : TypeArena
shapes = record two_shapes {
  types = two_shapes.types ++ union (13 ∷ 12 ∷ []) ∷ [];
  interned_unions = (2, 14) ∷ [];
}

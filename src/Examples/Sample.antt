-- ===== src/Examples/Sample.antt =====
-- A program with the literals "a" and "b", their union, an object and arrays of these.
use ts_rust.Prelude.{
  ℕ, zero, suc, refl, ◌≢◌, false, List, [], ◌∷◌, Option, none, some, arith, All, get_elem?,
}
use ts_rust.Types.{
  TypeId, Name, Ty, PropertyEntry, object, array, union, string_literal, intersection, error,
}
use ts_rust.Relation.View.{View, ChildrenBelow, IsFlat}

abbrev pub name_a : Name
name_a = 97 ∷ []

abbrev pub name_b : Name
name_b = 98 ∷ []

abbrev pub property : Name → TypeId → PropertyEntry
property name id = record { name = name; type_id = id; optional = false; is_method = false }

-- The ids 10 and up follow the primitives.
abbrev pub sample_types : List Ty
sample_types =
    Ty.number
    ∷ Ty.string
    ∷ Ty.boolean
    ∷ Ty.null
    ∷ Ty.undefined
    ∷ Ty.any
    ∷ Ty.unknown
    ∷ Ty.error
    ∷ Ty.never
    ∷ Ty.void
    ∷ string_literal name_a
    ∷ string_literal name_b
    ∷ union (10 ∷ 11 ∷ [])
    ∷ object (record { properties = property name_a 10 ∷ [] })
    ∷ object (record { properties = property name_a 12 ∷ [] })
    ∷ array 10
    ∷ array 12
    ∷ intersection (14 ∷ 13 ∷ [])
    ∷ object (record { properties = property name_a 10 ∷ property name_b 0 ∷ [] })
    ∷ []

abbrev pub type_or_error : Option Ty → Ty
type_or_error none = error
type_or_error (some ty) = ty

abbrev pub sample_get : TypeId → Ty
sample_get i = type_or_error (get_elem? sample_types i)

pub All-read {ℓ} :
    (P : Ty → Type ℓ) (ts : List Ty) (i : ℕ)
    → P error
    → All P ts
    → P (type_or_error (get_elem? ts i))
All-read P [] i p h = p
All-read P (t ∷ ts) zero p h = h.0
All-read P (t ∷ ts) (suc i) p h = All-read P ts i p h.1

pub sample_closed : All (ChildrenBelow 19) sample_types
sample_closed = (
  tt,
  (
    tt,
    (
      tt,
      (
        tt,
        (
          tt,
          (
            tt,
            (
              tt,
              (
                tt,
                (
                  tt,
                  (
                    tt,
                    (
                      tt,
                      (
                        tt,
                        (
                          (omega arith, (omega arith, tt)),
                          (
                            (omega arith, tt),
                            (
                              (omega arith, tt),
                              (
                                omega arith,
                                (
                                  omega arith,
                                  (
                                    (omega arith, (omega arith, tt)),
                                    ((omega arith, (omega arith, tt)), tt),
                                  ),
                                ),
                              ),
                            ),
                          ),
                        ),
                      ),
                    ),
                  ),
                ),
              ),
            ),
          ),
        ),
      ),
    ),
  ),
)

pub sample-IsFlat : All (IsFlat sample_get) sample_types
sample-IsFlat = (
  tt,
  (
    tt,
    (
      tt,
      (
        tt,
        (
          tt,
          (
            tt,
            (
              tt,
              (
                tt,
                (
                  tt,
                  (
                    tt,
                    (
                      tt,
                      (
                        tt,
                        (
                          (filled, ((refl, refl), ((refl, refl), tt))),
                          (tt, (tt, (tt, (tt, (tt, (tt, tt)))))),
                        ),
                      ),
                    ),
                  ),
                ),
              ),
            ),
          ),
        ),
      ),
    ),
  ),
)
  where
    filled : ◌≢◌ {A = List TypeId} (10 ∷ 11 ∷ []) []
    filled e = cc

abbrev pub sample : View
sample = record {
  size = 19;
  get = sample_get;
  closed = λ i h. All-read (ChildrenBelow 19) sample_types i tt sample_closed;
  flat = λ i. All-read (IsFlat sample_get) sample_types i tt sample-IsFlat;
}

-- ===== src/Types/Equality.antt =====
-- `impl PartialEq for Type`, with the derived equalities of its parts: shallow, a child id is
-- compared as a number, and a number literal by its bits.
use ts_rust.Prelude.{
  ◌≡◌, refl, ap, ◌↔◌, Bool, true, false, ◌&&◌, subst, List, [], ◌∷◌, Option, none, some, arith,
  ◌==◌, ==_iff,
}
use ts_rust.Types.{
  TypeId, TypeParameterId, FunctionTypeParam, Param, FunctionType, PropertyEntry, ObjectType, Ty,
  number, string, boolean, null, undefined, any, unknown, error, function, object, array, union,
  string_literal, number_literal, boolean_literal, never, void, generic_parameter, ref, named, app,
  intersection,
}
use ts_rust.Types.Names.{ids_eq, ids_eq_iff}

-- A test that says yes exactly at equal arguments.
abbrev pub Decides {ℓ} : {A : Type ℓ} → (A → A → Bool) → Type ℓ
Decides {A} eq = (a b : A) → (eq a b ≡ true) ↔ (a ≡ b)

module _ {ℓ} {A : Type ℓ} (eq : A → A → Bool) where
  -- `Vec` and `Option` equality.
  unfoldable pub list_eq : List A → List A → Bool
  list_eq [] [] = true
  list_eq (a ∷ as') (b ∷ bs) = eq a b && list_eq as' bs
  list_eq _ _ = false

  unfoldable pub option_eq : Option A → Option A → Bool
  option_eq none none = true
  option_eq (some a) (some b) = eq a b
  option_eq _ _ = false

module _ {ℓ} {A : Type ℓ} (eq : A → A → Bool) (law : Decides eq) where
  pub list_eq-Decides : Decides (list_eq eq)
  unfolding list_eq
  list_eq-Decides [] [] = (λ h. refl, λ e. refl)
  list_eq-Decides [] (b ∷ bs) = (λ h. cc, λ e. cc)
  list_eq-Decides (a ∷ as') [] = (λ h. cc, λ e. cc)
  list_eq-Decides (a ∷ as') (b ∷ bs) = (
    λ h. ground (arith, law a b, list_eq-Decides as' bs),
    λ e. ground (arith, law a b, list_eq-Decides as' bs),
  )

  pub option_eq-Decides : Decides (option_eq eq)
  unfolding option_eq
  option_eq-Decides none none = (λ h. refl, λ e. refl)
  option_eq-Decides none (some b) = (λ h. cc, λ e. cc)
  option_eq-Decides (some a) none = (λ h. cc, λ e. cc)
  option_eq-Decides (some a) (some b) = (λ h. ground (arith, law a b), λ e. ground (arith, law a b))

unfoldable pub bool_eq : Bool → Bool → Bool
bool_eq true b = b
bool_eq false true = false
bool_eq false false = true

pub bool_eq-Decides : Decides bool_eq
unfolding bool_eq
bool_eq-Decides true b = (λ h. ground arith, λ e. ground arith)
bool_eq-Decides false true = (λ h. cc, λ e. cc)
bool_eq-Decides false false = (λ h. refl, λ e. refl)

abbrev pub id_eq : TypeId → TypeId → Bool
id_eq a b = a == b

unfoldable pub parameter_id_eq : TypeParameterId → TypeParameterId → Bool
parameter_id_eq a b =
    a.file_id == b.file_id
    && a.declaration_span_start == b.declaration_span_start
    && a.parameter_index == b.parameter_index

unfoldable pub type_param_eq : FunctionTypeParam → FunctionTypeParam → Bool
unfolding parameter_id_eq option_eq ids_eq
type_param_eq a b =
    parameter_id_eq a.id b.id
    && ids_eq a.name b.name
    && option_eq id_eq a.constraint b.constraint
    && option_eq id_eq a.default b.default

unfoldable pub param_eq : Param → Param → Bool
unfolding option_eq ids_eq bool_eq
param_eq a b =
    a.type_id == b.type_id
    && bool_eq a.optional b.optional
    && bool_eq a.rest b.rest
    && option_eq ids_eq a.name b.name

unfoldable pub function_eq : FunctionType → FunctionType → Bool
unfolding list_eq param_eq type_param_eq bool_eq
function_eq a b =
    list_eq param_eq a.params b.params
    && a.return_type == b.return_type
    && list_eq type_param_eq a.type_params b.type_params
    && bool_eq a.is_untyped b.is_untyped

unfoldable pub property_eq : PropertyEntry → PropertyEntry → Bool
unfolding ids_eq bool_eq
property_eq a b =
    ids_eq a.name b.name
    && a.type_id == b.type_id
    && bool_eq a.optional b.optional
    && bool_eq a.is_method b.is_method

unfoldable pub object_eq : ObjectType → ObjectType → Bool
unfolding list_eq property_eq
object_eq a b = list_eq property_eq a.properties b.properties

unfoldable pub type_eq : Ty → Ty → Bool
unfolding function_eq object_eq ids_eq bool_eq parameter_id_eq option_eq
type_eq number number = true
type_eq string string = true
type_eq boolean boolean = true
type_eq null null = true
type_eq undefined undefined = true
type_eq any any = true
type_eq unknown unknown = true
type_eq error error = true
type_eq never never = true
type_eq void void = true
type_eq (function a) (function b) = function_eq a b
type_eq (object a) (object b) = object_eq a b
type_eq (array a) (array b) = a == b
type_eq (union a) (union b) = ids_eq a b
type_eq (intersection a) (intersection b) = ids_eq a b
type_eq (string_literal a) (string_literal b) = ids_eq a b
type_eq (number_literal a) (number_literal b) = a == b
type_eq (boolean_literal a) (boolean_literal b) = bool_eq a b
type_eq (generic_parameter id_a name_a bound_a) (generic_parameter id_b name_b bound_b) =
    parameter_id_eq id_a id_b && ids_eq name_a name_b && option_eq id_eq bound_a bound_b
type_eq (ref a) (ref b) = a == b
type_eq (named slot_a inner_a) (named slot_b inner_b) = slot_a == slot_b && inner_a == inner_b
type_eq (app slot_a args_a body_a) (app slot_b args_b body_b) =
    slot_a == slot_b && ids_eq args_a args_b && body_a == body_b
type_eq _ _ = false

parameter_id_eq-Decides : Decides parameter_id_eq
unfolding parameter_id_eq
parameter_id_eq-Decides a b = (λ h. ground arith, λ e. ground arith)

type_param_eq-Decides : Decides type_param_eq
unfolding type_param_eq
type_param_eq-Decides a b = ground (
  arith,
  parameter_id_eq-Decides a.id b.id,
  ids_eq_iff a.name b.name,
  option_eq-Decides id_eq ==_iff a.constraint b.constraint,
  option_eq-Decides id_eq ==_iff a.default b.default,
)

param_eq-Decides : Decides param_eq
unfolding param_eq
param_eq-Decides a b = ground (
  arith,
  bool_eq-Decides a.optional b.optional,
  bool_eq-Decides a.rest b.rest,
  option_eq-Decides ids_eq ids_eq_iff a.name b.name,
)

function_eq-Decides : Decides function_eq
unfolding function_eq
function_eq-Decides a b = ground (
  arith,
  list_eq-Decides param_eq param_eq-Decides a.params b.params,
  list_eq-Decides type_param_eq type_param_eq-Decides a.type_params b.type_params,
  bool_eq-Decides a.is_untyped b.is_untyped,
)

property_eq-Decides : Decides property_eq
unfolding property_eq
property_eq-Decides a b = ground (
  arith,
  ids_eq_iff a.name b.name,
  bool_eq-Decides a.optional b.optional,
  bool_eq-Decides a.is_method b.is_method,
)

object_eq-Decides : Decides object_eq
unfolding object_eq
object_eq-Decides a b =
    ground (arith, list_eq-Decides property_eq property_eq-Decides a.properties b.properties)

type_eq_refl : (a : Ty) → type_eq a a ≡ true
unfolding type_eq
type_eq_refl (function a) = (function_eq-Decides a a).1 refl
type_eq_refl (object a) = (object_eq-Decides a a).1 refl
type_eq_refl (union a) = (ids_eq_iff a a).1 refl
type_eq_refl (intersection a) = (ids_eq_iff a a).1 refl
type_eq_refl (string_literal a) = (ids_eq_iff a a).1 refl
type_eq_refl (boolean_literal a) = (bool_eq-Decides a a).1 refl
type_eq_refl (generic_parameter i n b) =
    ground (arith, parameter_id_eq-Decides i i, ids_eq_iff n n, option_eq-Decides id_eq ==_iff b b)
type_eq_refl (app s args b) = ground (arith, ids_eq_iff args args)
type_eq_refl a = ground arith

type_eq→eq : (a b : Ty) → type_eq a b ≡ true → a ≡ b
unfolding type_eq
type_eq→eq (function a) (function b) h = ap function ((function_eq-Decides a b).0 h)
type_eq→eq (object a) (object b) h = ap object ((object_eq-Decides a b).0 h)
type_eq→eq (union a) (union b) h = ap union ((ids_eq_iff a b).0 h)
type_eq→eq (intersection a) (intersection b) h = ap intersection ((ids_eq_iff a b).0 h)
type_eq→eq (string_literal a) (string_literal b) h = ap string_literal ((ids_eq_iff a b).0 h)
type_eq→eq (boolean_literal a) (boolean_literal b) h =
    ap boolean_literal ((bool_eq-Decides a b).0 h)
type_eq→eq (generic_parameter i n b) (generic_parameter j m c) h =
    ground (arith, parameter_id_eq-Decides i j, ids_eq_iff n m, option_eq-Decides id_eq ==_iff b c)
type_eq→eq (app s args b) (app t args' c) h = ground (arith, ids_eq_iff args args')
type_eq→eq a b h = ground arith

-- `==` on types says yes exactly at equal types.
pub type_eq_iff : (a b : Ty) → (type_eq a b ≡ true) ↔ (a ≡ b)
type_eq_iff a b = (type_eq→eq a b, λ e. subst (λ t. type_eq a t ≡ true) e (type_eq_refl a))

pub bool_eq_comm : (a b : Bool) → bool_eq a b ≡ bool_eq b a
unfolding bool_eq
bool_eq_comm a b = ground arith

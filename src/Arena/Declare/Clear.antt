-- ===== src/Arena/Declare/Clear.antt =====
-- `new` and `clear`: the arena of ten primitives.
use ts_rust.Prelude.{
  ℕ, zero, suc, ◌<◌, ◌^◌, ◌≡◌, refl, ◌≢◌, List, [], ◌∷◌, none, some, false, length, get_elem?, All,
  subst,
}
use ts_rust.Types.{TypeId, Ty, union}
use ts_rust.Relation.View.{is_union}
use ts_rust.Arena.{TypeArena}
use ts_rust.Arena.Store.{new, push_all, push, lookup, fixed_slots}
use ts_rust.Arena.Read.Sound.{IsSound, SlotBelow}
use ts_rust.Arena.Read.Later.{Later}
use ts_rust.Arena.Alloc.Interns.{IsTidy}
use ts_rust.Arena.Declare.{clear, truncate, next_generation}
use ts_rust.Arena.Declare.Resolve.{next_generation-ne}

All-get {ℓ κ} :
    {A : Type ℓ} (P : A → Type κ) (xs : List A) (i : ℕ) (x : A)
    → All P xs
    → get_elem? xs i ≡ some x
    → P x
All-get P [] i x h e = cc
All-get P (y ∷ ys) zero x h e = subst P (same e) h.0
  where
    same : some y ≡ some x → y ≡ x
    same e = cc
All-get P (y ∷ ys) (suc i) x h e = All-get P ys i x h.1 e

-- A type that names no id.
abbrev IsPlain : Ty → Type 0
IsPlain ty = ((i : TypeId) → SlotBelow 0 i ty) × (is_union ty ≡ false)

abbrev pub primitives : List Ty
primitives =
    Ty.number ∷ Ty.string ∷ Ty.boolean ∷ Ty.null ∷ Ty.undefined ∷ Ty.any ∷ Ty.unknown ∷ Ty.error
    ∷ Ty.never ∷ Ty.void ∷ []

All-IsPlain : All IsPlain primitives
All-IsPlain = (
  ((λ i. tt), refl),
  (
    ((λ i. tt), refl),
    (
      ((λ i. tt), refl),
      (
        ((λ i. tt), refl),
        (
          ((λ i. tt), refl),
          (
            ((λ i. tt), refl),
            (((λ i. tt), refl), (((λ i. tt), refl), (((λ i. tt), refl), (((λ i. tt), refl), tt)))),
          ),
        ),
      ),
    ),
  ),
)

-- The primitives of the fixed slots.
pub new-types : new.types ≡ primitives
unfolding new push_all push
new-types = refl

pub new-IsSound : IsSound new
unfolding new push_all push
new-IsSound = record {
  slots = λ i ty e. (plain i ty e).0 i;
  bodies = λ s d body e r. absurd (no_decl s e);
  unions = λ i ms e. absurd (no_union ms (plain i (union ms) e));
}
  where
    plain : (i : TypeId) (ty : Ty) → get_elem? primitives i ≡ some ty → IsPlain ty
    plain i ty e = All-get IsPlain primitives i ty All-IsPlain e

    no_decl : {A : Type 0} {d : A} (s : ℕ) → get_elem? [] s ≡ some d → ⊥
    no_decl s e = cc

    no_union : (ms : List TypeId) → IsPlain (union ms) → ⊥
    no_union ms p = cc

pub new-IsTidy : IsTidy new
unfolding new push_all push lookup
new-IsTidy = record { first = λ d id h. absurd (no h); others = λ d. tt }
  where
    no : {id : TypeId} → none ≡ some id → ⊥
    no h = cc

truncate_later {ℓ} :
    {A : Type ℓ} (ps xs ys : List A)
    → truncate (length ps) xs ≡ ps
    → ((i : ℕ) (x : A) → get_elem? xs i ≡ some x → get_elem? ys i ≡ some x)
    → truncate (length ps) ys ≡ ps
truncate_later [] xs ys h k = refl
truncate_later (p ∷ ps) [] ys h k = cc
truncate_later (p ∷ ps) (x ∷ xs) [] h k = absurd (missing (k 0 x refl))
  where
    missing : none ≡ some x → ⊥
    missing e = cc
truncate_later {A = A} (p ∷ ps) (x ∷ xs) (y ∷ ys) h k =
    cc (h, k 0 x refl, truncate_later ps xs ys (tail h) (λ i z e. k (suc i) z e))
  where
    tail : ◌≡◌ {A = List A} (x ∷ truncate (length ps) xs) (p ∷ ps) → truncate (length ps) xs ≡ ps
    tail e = cc

-- If the slots of `new` are those an arena begins with, and its generation is of 64 bits, `clear`
-- takes it back to `new`, save that its generation is the next one, which differs from the old.
pub clear_lem :
    (a : TypeArena)
    → Later new a
    → a.generation < 2 ^ 64
    → (clear a ≡ record new { generation = next_generation a.generation })
      × ((clear a).generation ≢ a.generation)
unfolding clear new push_all push
clear_lem a later g = (rw starts refl, next_generation-ne a.generation g)
  where
    starts : truncate fixed_slots a.types ≡ primitives
    starts = truncate_later primitives primitives a.types refl later.slots

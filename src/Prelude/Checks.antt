-- ===== src/Prelude/Checks.antt =====
-- Boolean questions that run on fuel: `none` means that the fuel ran out.
use mathlib.Core.Path.{◌≡◌, refl}
use mathlib.Core.Bool.{Bool, true, false}
use mathlib.Core.List.{List, [], ◌∷◌}
use mathlib.Core.Option.{Option, none, some}
use mathlib.Core.Logic.{◌↔◌}
use native.Mathlib.Omega.{arith}
use ts_rust.Prelude.Lists.{All, all}
use ts_rust.Prelude.Tests.{if◌then◌else◌}

abbrev pub Check : Type 0
Check = Option Bool

-- `a && b`, `a || b`: the second is asked only if the first does not decide.
infixr 35 ◌&&?◌
infixr 30 ◌||?◌
abbrev pub ◌&&?◌ : Check → Check → Check
none &&? d = none
some true &&? d = d
some false &&? d = some false

abbrev pub ◌||?◌ : Check → Check → Check
none ||? d = none
some true ||? d = some true
some false ||? d = d

module _ {ℓ} {A : Type ℓ} where
  -- `iter().all(..)` and `iter().any(..)` of a fallible question.
  unfoldable pub all? : (A → Check) → List A → Check
  all? p [] = some true
  all? p (x ∷ xs) = let rest = all? p xs in p x &&? rest

  unfoldable pub any? : (A → Check) → List A → Check
  any? p [] = some false
  any? p (x ∷ xs) = let rest = any? p xs in p x ||? rest

abbrev pub Answers : Check → Type 0
Answers c = (b : Bool) × (c ≡ some b)

-- `d` answers, and gives the answer `b` wherever `c` does.
abbrev pub Follows : Bool → Check → Check → Type 0
Follows b c d = Answers d × (c ≡ some b → d ≡ some b)

pub &&?-Answers : {c d : Check} → Answers c → Answers d → Answers (c &&? d)
&&?-Answers (true, p) (b, q) = (b, ground arith)
&&?-Answers (false, p) (b, q) = (false, ground arith)

pub ||?-Answers : {c d : Check} → Answers c → Answers d → Answers (c ||? d)
||?-Answers (true, p) (b, q) = (true, ground arith)
||?-Answers (false, p) (b, q) = (b, ground arith)

pub Follows-some : (b x : Bool) → Follows b (some x) (some x)
Follows-some b x = ((x, refl), λ e. e)

pub &&?-Follows :
    (b : Bool) (c c' d d' : Check)
    → Follows b c c'
    → Follows b d d'
    → Follows b (c &&? d) (c' &&? d')
&&?-Follows b c c' d d' ((true, e), p) q = (&&?-Answers (true, e) q.0, ground (arith, q.1))
&&?-Follows b c c' d d' ((false, e), p) q = (&&?-Answers (false, e) q.0, ground arith)

pub ||?-Follows :
    (b : Bool) (c c' d d' : Check)
    → Follows b c c'
    → Follows b d d'
    → Follows b (c ||? d) (c' ||? d')
||?-Follows b c c' d d' ((true, e), p) q = (||?-Answers (true, e) q.0, ground arith)
||?-Follows b c c' d d' ((false, e), p) q = (||?-Answers (false, e) q.0, ground (arith, q.1))

module _ {ℓ} {A : Type ℓ} where
  pub all?-Answers :
      (p : A → Check) (xs : List A) → All (λ x. Answers (p x)) xs → Answers (all? p xs)
  unfolding all?
  all?-Answers p [] h = (true, refl)
  all?-Answers p (x ∷ xs) h = &&?-Answers h.0 (all?-Answers p xs h.1)

  pub any?-Answers :
      (p : A → Check) (xs : List A) → All (λ x. Answers (p x)) xs → Answers (any? p xs)
  unfolding any?
  any?-Answers p [] h = (false, refl)
  any?-Answers p (x ∷ xs) h = ||?-Answers h.0 (any?-Answers p xs h.1)

  pub all?-Follows :
      (b : Bool) (p q : A → Check) (xs : List A)
      → ((x : A) → Follows b (p x) (q x))
      → Follows b (all? p xs) (all? q xs)
  unfolding all?
  all?-Follows b p q [] h = Follows-some b true
  all?-Follows b p q (x ∷ xs) h =
      &&?-Follows b (p x) (q x) (all? p xs) (all? q xs) (h x) (all?-Follows b p q xs h)

  pub any?-Follows :
      (b : Bool) (p q : A → Check) (xs : List A)
      → ((x : A) → Follows b (p x) (q x))
      → Follows b (any? p xs) (any? q xs)
  unfolding any?
  any?-Follows b p q [] h = Follows-some b false
  any?-Follows b p q (x ∷ xs) h =
      ||?-Follows b (p x) (q x) (any? p xs) (any? q xs) (h x) (any?-Follows b p q xs h)

  -- Where each question has its answer, the loop has the plain loop's.
  pub all?-eq :
      (f : A → Check) (p : A → Bool) (xs : List A)
      → All (λ x. f x ≡ some (p x)) xs
      → all? f xs ≡ some (all p xs)
  unfolding all?
  all?-eq f p [] h = refl
  all?-eq f p (x ∷ xs) h = ground (arith, all?-eq f p xs h.1)

pub if-Follows :
    (b t : Bool) (c c' d d' : Check)
    → Follows b c c'
    → Follows b d d'
    → Follows b (if t then c else d) (if t then c' else d')
if-Follows b true c c' d d' p q = p
if-Follows b false c c' d d' p q = q

pub if-Answers : (t : Bool) {c d : Check} → Answers c → Answers d → Answers (if t then c else d)
if-Answers true p q = p
if-Answers false p q = q

module _ {ℓ} {A : Type ℓ} where
  pub all?-congr : (f g : A → Check) (xs : List A) → All (λ x. f x ≡ g x) xs → all? f xs ≡ all? g xs
  unfolding all?
  all?-congr f g [] h = refl
  all?-congr f g (x ∷ xs) h = ground (arith, all?-congr f g xs h.1)

  -- The loop says yes exactly when each question is answered yes.
  pub all?_iff :
      (f : A → Check) (xs : List A) → (all? f xs ≡ some true) ↔ All (λ x. f x ≡ some true) xs
  unfolding all?
  all?_iff f [] = (λ h. tt, λ h. refl)
  all?_iff f (x ∷ xs) =
      (λ h. ground (arith, (all?_iff f xs).0), λ h. ground (arith, (all?_iff f xs).1 h.1))

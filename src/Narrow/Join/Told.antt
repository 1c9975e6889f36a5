-- ===== src/Narrow/Join/Told.antt =====
-- What a loop of `join_states` makes known of a key, over arenas that grow.
use ts_rust.Prelude.{ℕ, ◌≡◌, ◌∙◌, subst, List, [], ◌∷◌, Option, none, some, inl, inr}
use ts_rust.Types.{TypeId, object}
use ts_rust.Arena.{TypeArena, DeclState}
use ts_rust.Arena.Read.{get}
use ts_rust.Arena.Read.Sound.{value}
use ts_rust.Arena.Read.Later.{Later, StateLater}
use ts_rust.Arena.Union.{alloc_union}
use ts_rust.Arena.Union.Sound.{IsUnionOf, alternatives_at}

StateLater-trans :
    (a b : TypeArena) (st st' st'' : DeclState)
    → Later a b
    → StateLater a st st'
    → StateLater b st' st''
    → StateLater b st st''
StateLater-trans a b st st' st'' later (inl e) (inl e') = inl (e' ∙ e)
StateLater-trans a b st st' st'' later (inl e) (inr h) = inr h
StateLater-trans a b st st' st'' later (inr (i, o, e, t)) (inl e') =
    inr (i, o, e' ∙ e, later.slots i (object o) t)
StateLater-trans a b st st' st'' later (inr h) (inr k) = inr k

pub Later-trans : (a b c : TypeArena) → Later a b → Later b c → Later a c
Later-trans a b c first second = record {
  slots = λ i ty e. second.slots i ty (first.slots i ty e);
  decls = λ s d e.
      let (d', e', h) = first.decls s d e in
      let (d'', e'', k) = second.decls s d' e' in
      (d'', e'', StateLater-trans b c d.state d'.state d''.state second h k);
}

-- The id of the union of two types, as `alloc_union` gave it on an arena that `a` has grown to, and
-- that has grown to `c`.
abbrev pub JoinedAs : (List TypeId → ℕ) → TypeArena → TypeArena → TypeId → TypeId → TypeId → Type 0
JoinedAs digest a c t u i =
    (p : TypeArena) × (q : TypeArena) × (alloc_union digest p (t ∷ u ∷ []) ≡ some (q, i))
    × Later a p
    × Later q c
    × IsUnionOf p (t ∷ u ∷ []) (alternatives_at (value (get q i)) i)

-- What is known of a key after entries of which it is in one of type `f`, or in none, where the
-- other state has `g`: the union of both, if there are both, and else what was known.
abbrev pub Told :
    (List TypeId → ℕ)
    → TypeArena
    → TypeArena
    → Option TypeId
    → Option TypeId
    → Option TypeId
    → Option TypeId
    → Type 0
Told digest a c old none g new = new ≡ old
Told digest a c old (some t) none new = new ≡ old
Told digest a c old (some t) (some u) new =
    (i : TypeId) × (new ≡ some i) × JoinedAs digest a c t u i

pub Told-Later :
    (digest : List TypeId → ℕ) (a' a c c' : TypeArena) (old f g new : Option TypeId)
    → Later a' a
    → Later c c'
    → Told digest a c old f g new
    → Told digest a' c' old f g new
Told-Later digest a' a c c' old none g new h k e = e
Told-Later digest a' a c c' old (some t) none new h k e = e
Told-Later digest a' a c c' old (some t) (some u) new h k (i, e, (p, q, r, before, after, rest)) =
    (i, e, (p, q, r, Later-trans a' a p h before, Later-trans q c c' after k, rest))

pub Told-none :
    (digest : List TypeId → ℕ) (a c : TypeArena) (old f g new : Option TypeId)
    → f ≡ none
    → Told digest a c old f g new
    → new ≡ old
Told-none digest a c old f g new e h = subst (λ r. Told digest a c old r g new) e h

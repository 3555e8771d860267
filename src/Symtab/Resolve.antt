-- ===== src/Symtab/Resolve.antt =====
-- The resolution of names through nested scopes (symtab_get and symtab_contains of symtab.c).
use lex_leo.Prelude.{
  ◌≡◌, ◌↔◌, refl, ap, ◌∙◌, inl, inr, true, false, Option, none, some, List, [], ◌∷◌, is_some,
  Option-cases,
}
use lex_leo.HashtableKey.{Key}
use lex_leo.Hashtable.{Hashtable}
use lex_leo.Hashtable.Map.{contents}
use lex_leo.Hashtable.Map.Create.{hashtable_get-contents}
use lex_leo.Symtab.{
  Symbol, Scope, symtab_get_local, symtab_contains_local, symtab_get, symtab_contains,
}
use lex_leo.Symtab.Winding.{Present, IsSymtab}

-- A scope maps a name to a symbol.
pub record Binds (s : Scope) (k : Key) (x : Symbol) : Type 0 where
  pub table : Hashtable Symbol
  pub present : s.symbols ≡ some table
  pub bound : contents table k ≡ some (some x)

-- A scope has no symbol of that name.
pub record Lacks (s : Scope) (k : Key) : Type 0 where
  pub table : Hashtable Symbol
  pub present : s.symbols ≡ some table
  pub unbound : contents table k ≡ none

-- Static scoping: the symbol of a name is that of the innermost scope which has one.
pub data Visible (k : Key) (x : Symbol) : List Scope → Type 0 where
  here : {s : Scope} {st : List Scope} → Binds s k x → Visible k x (s ∷ st)
  outside : {s : Scope} {st : List Scope} → Lacks s k → Visible k x st → Visible k x (s ∷ st)

-- What the two local operations answer at a scope.
data Local (k : Key) (s : Scope) (st : List Scope) : Type 0 where
  unbound : Lacks s k → symtab_contains_local (s ∷ st) (some k) ≡ false → Local k s st
  bound :
      (x : Symbol)
      → Binds s k x
      → symtab_contains_local (s ∷ st) (some k) ≡ true
      → symtab_get_local (s ∷ st) (some k) ≡ some x
      → Local k s st

Local-at :
    (k : Key) (s : Scope) (st : List Scope) (o : Option (Hashtable Symbol))
    → Present o
    → s.symbols ≡ o
    → Local k s st
unfolding symtab_contains_local symtab_get_local
Local-at k s st none v e = absurd v
Local-at k s st (some ht) v e =
    let (u, g) = hashtable_get-contents ht k in
    elim (Option-cases (contents ht k)) [
      | inl n ↦ unbound (record { table = ht; present = e; unbound = n }) (rw (e, u, n))
      | inr (y, f) ↦
          let (x, p, q) = v.named k y f in
          bound x (record { table = ht; present = e; bound = f ∙ ap some p }) (rw (e, u, f))
            (rw (e, g, f) p)
    ]

clash : (k : Key) (s : Scope) (x : Symbol) → Binds s k x → Lacks s k → ⊥
clash k s x a l = cc

same-binding : (k : Key) (s : Scope) (x y : Symbol) → Binds s k x → Binds s k y → x ≡ y
same-binding k s x y a c = cc

-- Where the innermost scope binds the name, its symbol is the visible one.
Visible-here :
    (k : Key) (s : Scope) (st : List Scope) (x y : Symbol)
    → Binds s k y
    → Visible k x (s ∷ st)
    → y ≡ x
Visible-here k s st x y b (here b') = same-binding k s y x b b'
Visible-here k s st x y b (outside l v) = absurd (clash k s y b l)

-- Where it lacks the name, the visible symbol is that of the outer scopes.
Visible-outside :
    (k : Key) (s : Scope) (st : List Scope) (x : Symbol)
    → Lacks s k
    → Visible k x (s ∷ st)
    → Visible k x st
Visible-outside k s st x l (here b) = absurd (clash k s x b l)
Visible-outside k s st x l (outside l' v) = v

nothing-Visible : (k : Key) (x : Symbol) (st : List Scope) → st ≡ [] → ¬ Visible k x st
nothing-Visible k x _ e (here b) = absurd (cc)
nothing-Visible k x _ e (outside l v) = absurd (cc)

module _ (k : Key) where
  -- A name resolves to a symbol exactly if static scoping makes that symbol visible: an inner scope
  -- hides the outer ones.
  pub symtab_get_iff :
      (st : List Scope) (x : Symbol)
      → IsSymtab st
      → (symtab_get st (some k) ≡ some x) ↔ Visible k x st
  unfolding symtab_get
  symtab_get_iff [] x v = (λ h. absurd (cc), λ h. absurd (nothing-Visible k x [] refl h))
  symtab_get_iff (s ∷ st) x (v, vs) = elim (Local-at k s st s.symbols v refl) [
    | unbound l c ↦ rw c (
      λ h. outside l ((symtab_get_iff st x vs).0 h),
      λ h. (symtab_get_iff st x vs).1 (Visible-outside k s st x l h),
    )
    | bound y b c g ↦
        rw (c, g)
          (λ h. let e : y ≡ x = cc in rw (← e) (here b), λ h. ap some (Visible-here k s st x y b h))
  ]

  -- A name is contained in a table exactly if it resolves.
  pub symtab_contains-get :
      (st : List Scope)
      → IsSymtab st
      → symtab_contains st (some k) ≡ is_some (symtab_get st (some k))
  unfolding symtab_get symtab_contains
  symtab_contains-get [] v = refl
  symtab_contains-get (s ∷ st) (v, vs) = elim (Local-at k s st s.symbols v refl) [
    | unbound l c ↦ rw c (symtab_contains-get st vs)
    | bound y b c g ↦ rw (c, g)
  ]

-- ===== src/Symtab/Winding.antt =====
-- Scopes that are opened and closed: the invariant of a symbol table, and what its scopes own
-- (symtab.c).
use lex_leo.Prelude.{ℕ, ◌+◌, ◌≤◌, ◌≡◌, refl, Option, none, some, List, [], ◌∷◌, arith}
use lex_leo.Memory.{World, Resource, block, unit}
use lex_leo.Memory.Balance.{
  Returns, returns, bind, Delta, Balanced, Allocated, fresh, exhausted, calloc-Allocated,
}
use lex_leo.Memory.Release.{Amount, Owning, Frees, free-Frees}
use lex_leo.HashtableKey.{HashtableKeyType, Key}
use lex_leo.Hashtable.{Hashtable, hashtable_destroy}
use lex_leo.Hashtable.Buckets.{IsTable}
use lex_leo.Hashtable.Ownership.{borrowed, table_amount, hashtable_destroy-Frees}
use lex_leo.Hashtable.Map.{contents}
use lex_leo.Hashtable.Map.Create.{Created, made, not_made, hashtable_create-Created}
use lex_leo.Symtab.{
  Symbol, Scope, symtab_size, bindings_made, scope_made, symtab_wind_scope, symtab_unwind_scope,
}

-- The tables do not own their symbols.
abbrev pub no_symbol : Option Symbol → Amount
no_symbol v r = 0

abbrev pub symbols_amount : Option (Hashtable Symbol) → Amount
symbols_amount none r = 0
symbols_amount (some ht) r = table_amount no_symbol ht r

abbrev pub scope_amount : Scope → Amount
scope_amount s r = symbols_amount s.symbols r + unit (block s.addr) r

abbrev pub symtab_amount : List Scope → Amount
symtab_amount [] r = 0
symtab_amount (s ∷ st) r = scope_amount s r + symtab_amount st r

-- The symbols of a scope: a valid table with string keys and without a callback, whose values are
-- symbols with the name that they are stored under.
pub record IsSymbols (ht : Hashtable Symbol) : Type 0 where
  pub table : IsTable ht
  pub strings : ht.key_type ≡ HashtableKeyType.string
  pub kept : ht.destroy_value_fn ≡ none
  pub named :
      (k : Key) (v : Option Symbol)
      → contents ht k ≡ some v
      → (sym : Symbol) × (v ≡ some sym) × (sym.name.text ≡ k.text)

abbrev pub Present : Option (Hashtable Symbol) → Type 0
Present none = ⊥
Present (some ht) = IsSymbols ht

abbrev pub IsSymtab : List Scope → Type 0
IsSymtab [] = Unit
IsSymtab (s ∷ st) = Present s.symbols × IsSymtab st

-- The outcome of opening a scope: an empty one in front, or none and no leak.
pub data Wound (st : List Scope) (w : World) : Option (List Scope) → World → Type 0 where
  wound :
      {s : Scope} {ht : Hashtable Symbol} {w' : World}
      → s.symbols ≡ some ht
      → IsSymbols ht
      → ((k : Key) → contents ht k ≡ none)
      → Owning w (scope_amount s) w'
      → Wound st w (some (s ∷ st)) w'
  not_wound : {w' : World} → Balanced w w' → Wound st w none w'

module _ (st : List Scope) (w : World) where
  bindings_made-Wound :
      (addr : ℕ) (o : Option (Hashtable Symbol)) (w₁ w₂ : World)
      → Delta (block addr ∷ []) [] w w₁
      → Created no_symbol symtab_size HashtableKeyType.string none w₁ o w₂
      → Returns (Wound st w) (bindings_made addr st o w₂)
  unfolding bindings_made
  bindings_made-Wound addr _ w₁ w₂ d (not_made e) =
      bind (free-Frees addr w₂ (λ r. omega (arith, d r, e r)))
        λ _ w₃ f. returns (not_wound (λ r. omega (arith, d r, e r, f r)))
  bindings_made-Wound addr _ w₁ w₂ d (made {ht} v kt df empty o) = returns (
      wound {ht = ht} refl
        (record {
          table = v;
          strings = kt;
          kept = df;
          named = λ k x h. absurd (let e = empty k in cc);
        })
        empty λ r. omega (arith, d r, o r))

  scope_made-Wound :
      (o : Option ℕ) (w₁ : World) → Allocated w o w₁ → Returns (Wound st w) (scope_made st o w₁)
  unfolding scope_made
  scope_made-Wound _ w₁ (exhausted e) = returns (not_wound e)
  scope_made-Wound _ w₁ (fresh p e) =
      bind (hashtable_create-Created no_symbol symtab_size HashtableKeyType.string none w₁)
        λ o w₂ c. bindings_made-Wound p o w₁ w₂ e c

  -- An opened scope is empty, keeps the others behind it and takes exactly what it owns; where memory
  -- runs out there is none, and nothing is leaked.
  pub symtab_wind_scope-Wound : Returns (Wound st w) (symtab_wind_scope st w)
  unfolding symtab_wind_scope
  symtab_wind_scope-Wound = bind (calloc-Allocated w) λ o w₁ a. scope_made-Wound o w₁ a

symbols-Frees :
    (o : Option (Hashtable Symbol)) → Present o → Frees (symbols_amount o) (hashtable_destroy o)
symbols-Frees none v = absurd v
symbols-Frees (some ht) v =
    hashtable_destroy-Frees no_symbol ht (rw (v.kept) (borrowed (λ v r. refl)))

-- A closed scope gives back exactly what it owns, and the scopes behind it are left.
symtab_unwind_scope-Frees :
    (s : Scope) (st : List Scope) (w : World)
    → Present s.symbols
    → ((r : Resource) → scope_amount s r ≤ w.live r)
    → Returns
        (λ left w'. (left ≡ st) × ((r : Resource) → w'.live r + scope_amount s r ≡ w.live r))
        (symtab_unwind_scope (s ∷ st) w)
unfolding symtab_unwind_scope
symtab_unwind_scope-Frees s st w v h =
    bind (symbols-Frees s.symbols v w (λ r. omega (arith, h r))) λ _ w₁ d.
      bind (free-Frees s.addr w₁ (λ r. omega (arith, h r, d r)))
        λ _ w₂ e. returns (refl, λ r. omega (arith, d r, e r))

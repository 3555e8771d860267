-- ===== src/RuntimeSession/Pools.antt =====
-- Storing into the pools of a session and cleaning them up (list.c, runtime_session.c).
use lex_leo.Prelude.{
  ℕ, ◌+◌, ◌≤◌, ◌≡◌, refl, inl, inr, Bool, true, false, Option, some, List, [], ◌∷◌, Bool-cases,
}
use lex_leo.Memory.{World, M, block, unit, free, ◌>>◌, ◌>>=◌, Resource}
use lex_leo.Memory.Balance.{
  Returns, returns, bind, and_then_assoc, Delta, Balanced, Allocated, fresh, exhausted,
  calloc-Allocated,
}
use lex_leo.Memory.Release.{Amount, Frees, Frees-then, Frees-none, free-Frees}
use lex_leo.Symtab.{Symbol}
use lex_leo.Ast.Children.{ast_destroy}
use lex_leo.Ast.Destruction.{ast_amount, WellTyped, ast_destroy-Frees}
use lex_leo.RuntimeSession.{
  Cons, cell_pushed, list_push, list_free_list, list_contains, stored, store_in, same_symbol,
  RuntimeSession, symbols_stored, runtime_session_store_symbol, runtime_session_cleanup_ast_pool,
}

module _ {A : Type 0} (same_item : A → A → Bool) where
  -- No item stands twice.
  abbrev pub Distinct : List (Cons A) → Type 0
  Distinct [] = Unit
  Distinct (c ∷ l) = (list_contains same_item l c.car ≡ false) × Distinct l

  -- The outcome of storing `item` into `pool`.
  pub data Stored (pool : List (Cons A)) (item : A) (w : World)
      : Bool → List (Cons A) → World → Type 0 where
    present :
        {w' : World}
        → list_contains same_item pool item ≡ true
        → Balanced w w'
        → Stored pool item w true pool w'
    added :
        (p : ℕ) {w' : World}
        → list_contains same_item pool item ≡ false
        → Delta (block p ∷ []) [] w w'
        → Stored pool item w true (record { cell = p; car = item } ∷ pool) w'
    not_stored :
        {w' : World}
        → list_contains same_item pool item ≡ false
        → Balanced w w'
        → Stored pool item w false pool w'

  pub Stored-Distinct :
      (pool : List (Cons A)) (item : A) (w : World) (good : Bool) (l : List (Cons A)) (w' : World)
      → Stored pool item w good l w'
      → Distinct pool
      → Distinct l
  Stored-Distinct pool item w _ _ w' (present e d) h = h
  Stored-Distinct pool item w _ _ w' (added p e d) h = (e, h)
  Stored-Distinct pool item w _ _ w' (not_stored e d) h = h

  module _ (pool : List (Cons A)) (item : A) (w : World) where
    cell-Stored :
        (o : Option ℕ) (w₁ : World)
        → list_contains same_item pool item ≡ false
        → Allocated w o w₁
        → Returns
            (λ (good, l) w'. Stored pool item w good l w')
            ((cell_pushed pool item o >>= stored pool) w₁)
    unfolding cell_pushed stored
    cell-Stored _ w₁ e (fresh p d) = returns (added p e d)
    cell-Stored _ w₁ e (exhausted d) = returns (not_stored e d)

    pub store_in-Stored :
        Returns (λ (good, l) w'. Stored pool item w good l w') (store_in same_item pool item w)
    unfolding store_in list_push
    store_in-Stored = elim (Bool-cases (list_contains same_item pool item)) [
      | inl e ↦ rw e (returns (present e (λ r. refl)))
      | inr e ↦
          rw e
            (rw (and_then_assoc _ _ _) (bind (calloc-Allocated w) λ o w₁ a. cell-Stored o w₁ e a))
    ]

-- What the cells of a pool own, with what their items own.
abbrev pub pool_amount : {A : Type 0} → (A → Amount) → List (Cons A) → Amount
pool_amount own [] r = 0
pool_amount own (c ∷ l) r = own c.car r + (unit (block c.cell) r + pool_amount own l r)

abbrev pub Every : {A : Type 0} → (A → Type 0) → List (Cons A) → Type 0
Every P [] = Unit
Every P (c ∷ l) = P c.car × Every P l

list_free_list-Frees :
    {A : Type 0} (own : A → Amount) (P : A → Type 0) (destroy : A → M (Unit {0}))
    → ((a : A) → P a → Frees (own a) (destroy a))
    → (l : List (Cons A)) → Every P l
    → Frees (pool_amount own l) (list_free_list l (some destroy))
unfolding list_free_list
list_free_list-Frees own P destroy each [] v = Frees-none
list_free_list-Frees own P destroy each (c ∷ l) (v, vs) =
    Frees-then (own c.car) (λ r. unit (block c.cell) r + pool_amount own l r) (destroy c.car)
      (free c.cell >> list_free_list l (some destroy)) (each c.car v)
      (Frees-then (unit (block c.cell)) (pool_amount own l) (free c.cell)
        (list_free_list l (some destroy)) (free-Frees c.cell)
        (list_free_list-Frees own P destroy each l vs))

-- The outcome of storing a symbol into a session: only the pool of symbols can change.
pub record SymbolStored (session : RuntimeSession) (item : Symbol) (w : World) (good : Bool)
    (o : Option RuntimeSession) (w' : World) : Type 0 where
  pub symbols : List (Cons Symbol)
  pub left : o ≡ some (record session { symbol_pool = symbols })
  pub outcome : Stored same_symbol session.symbol_pool item w good symbols w'
  pub distinct : Distinct same_symbol symbols

-- A symbol that is stored into a session whose pool has no symbol twice: where the pool has it, nothing
-- changes and the answer is true; else it stands in a new cell in front, or, where memory runs out, the
-- pool stays and the answer is false. The pool has no symbol twice afterwards either.
pub runtime_session_store_symbol-SymbolStored :
    (session : RuntimeSession) (item : Symbol) (w : World)
    → Distinct same_symbol session.symbol_pool
    → Returns
        (λ (good, o) w'. SymbolStored session item w good o w')
        (runtime_session_store_symbol (some item) (some session) w)
unfolding runtime_session_store_symbol symbols_stored
runtime_session_store_symbol-SymbolStored session item w h =
    bind (store_in-Stored same_symbol session.symbol_pool item w) λ (good, l) w' v.
      returns (record {
        symbols = l;
        left = refl;
        outcome = v;
        distinct = Stored-Distinct same_symbol session.symbol_pool item w good l w' v h;
      })

-- The cleanup of the pool of trees leaves an empty pool and gives back exactly its cells and what its
-- trees own, where those are well typed and their resources are live.
pub runtime_session_cleanup_ast_pool-Cleaned :
    (session : RuntimeSession) (w : World)
    → Every WellTyped session.ast_pool
    → ((r : Resource) → pool_amount ast_amount session.ast_pool r ≤ w.live r)
    → Returns
        (λ s w'.
          (s ≡ record session { ast_pool = [] })
          × ((r : Resource) → w'.live r + pool_amount ast_amount session.ast_pool r ≡ w.live r))
        (runtime_session_cleanup_ast_pool session w)
unfolding runtime_session_cleanup_ast_pool
runtime_session_cleanup_ast_pool-Cleaned session w v h =
    bind
      (list_free_list-Frees ast_amount WellTyped ast_destroy ast_destroy-Frees session.ast_pool v w
        h)
      λ _ w' d. returns (refl, d)

-- ===== src/RuntimeSession.antt =====
-- The pools of a session of the archived core: list.c (src/legacy/foundation_legacy/data_structures)
-- and what of runtime_session.c (src/legacy/core_legacy/runtime_session) stores into its pools and
-- cleans them up. Items are compared by their address.
pub mod Pools
use lex_leo.Prelude.{
  ℕ, Bool, true, false, ◌||◌, Option, none, some, List, [], ◌∷◌, ◌==◌, if◌then◌else◌,
}
use lex_leo.Memory.{M, pure, ◌>>=◌, ◌>>◌, calloc, free}
use lex_leo.Symtab.{Symbol}
use lex_leo.Ast.{Ast}
use lex_leo.Ast.Children.{ast_destroy}

-- A cell of a list; `NULL` is the empty list.
pub record Cons (A : Type 0) : Type 0 where
  pub cell : ℕ
  pub car : A

module _ {A : Type 0} where
  cell_pushed : List (Cons A) → A → Option ℕ → M (List (Cons A))
  cell_pushed l e none = pure []
  cell_pushed l e (some p) = pure (record { cell = p; car = e } ∷ l)

  -- On an error the answer is `NULL`, and `l` stays what it was.
  unfoldable pub list_push : (l : List (Cons A)) → (e : Option A) → M (List (Cons A))
  unfolding cell_pushed
  list_push l none = pure []
  list_push l (some e) = calloc >>= cell_pushed l e

  -- The item, and the list that the caller's variable holds behind the call.
  unfoldable pub list_pop : List (Cons A) → M (Option A × List (Cons A))
  list_pop [] = pure (none, [])
  list_pop (c ∷ l) = do free c.cell; pure (some c.car, l)

  abbrev pub destroy_car : Option (A → M (Unit {0})) → A → M (Unit {0})
  destroy_car none car = pure tt
  destroy_car (some destroy_fn) car = destroy_fn car

  unfoldable pub list_free_list :
      List (Cons A) → (destroy_fn : Option (A → M (Unit {0}))) → M (Unit {0})
  list_free_list [] destroy_fn = pure tt
  list_free_list (c ∷ l) destroy_fn = do
    destroy_car destroy_fn c.car
    free c.cell
    list_free_list l destroy_fn

  unfoldable pub list_contains : (A → A → Bool) → List (Cons A) → A → Bool
  list_contains same_item [] item = false
  list_contains same_item (c ∷ l) item = same_item c.car item || list_contains same_item l item

  stored : List (Cons A) → List (Cons A) → M (Bool × List (Cons A))
  stored pool [] = pure (false, pool)
  stored pool (c ∷ l) = pure (true, c ∷ l)

  unfoldable pub store_in : (A → A → Bool) → List (Cons A) → A → M (Bool × List (Cons A))
  unfolding stored
  store_in same_item pool item =
      if list_contains same_item pool item
      then pure (true, pool)
      else (list_push pool (some item) >>= stored pool)

unfoldable pub same_symbol : Symbol → Symbol → Bool
same_symbol a b = a.addr == b.addr

unfoldable pub same_node : Ast → Ast → Bool
same_node Ast.error_sentinel Ast.error_sentinel = true
same_node (Ast.wrapper p d) (Ast.wrapper q e) = p == q
same_node (Ast.error_node p d) (Ast.error_node q e) = p == q
same_node (Ast.children_node p ty ch) (Ast.children_node q tz dh) = p == q
same_node _ _ = false

-- The pools of a session.
pub record RuntimeSession : Type 0 where
  pub symbol_pool : List (Cons Symbol)
  pub ast_pool : List (Cons Ast)

symbols_stored : RuntimeSession → Bool × List (Cons Symbol) → M (Bool × Option RuntimeSession)
symbols_stored session (good, pool) = pure (good, some (record session { symbol_pool = pool }))

unfoldable pub runtime_session_store_symbol :
    Option Symbol → Option RuntimeSession → M (Bool × Option RuntimeSession)
unfolding symbols_stored
runtime_session_store_symbol sym none = pure (false, none)
runtime_session_store_symbol none (some session) = pure (false, some session)
runtime_session_store_symbol (some sym) (some session) =
    store_in same_symbol session.symbol_pool sym >>= symbols_stored session

asts_stored : RuntimeSession → Bool × List (Cons Ast) → M (Bool × Option RuntimeSession)
asts_stored session (good, pool) = pure (good, some (record session { ast_pool = pool }))

unfoldable pub runtime_session_store_ast :
    Option Ast → Option RuntimeSession → M (Bool × Option RuntimeSession)
unfolding asts_stored
runtime_session_store_ast root none = pure (false, none)
runtime_session_store_ast none (some session) = pure (false, some session)
runtime_session_store_ast (some root) (some session) =
    store_in same_node session.ast_pool root >>= asts_stored session

unfoldable pub runtime_session_destroy_symbol_adapter : Symbol → M (Unit {0})
runtime_session_destroy_symbol_adapter item = do free item.name.addr; free item.addr

unfoldable pub runtime_session_cleanup_symbol_pool : RuntimeSession → M RuntimeSession
runtime_session_cleanup_symbol_pool session = do
  list_free_list session.symbol_pool (some runtime_session_destroy_symbol_adapter)
  pure (record session { symbol_pool = [] })

unfoldable pub runtime_session_cleanup_ast_pool : RuntimeSession → M RuntimeSession
runtime_session_cleanup_ast_pool session = do
  list_free_list session.ast_pool (some ast_destroy)
  pure (record session { ast_pool = [] })

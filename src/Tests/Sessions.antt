-- ===== src/Tests/Sessions.antt =====
-- The pools of a session on concrete inputs.
use lex_leo.Prelude.{◌+◌, ◌≡◌, refl, some, [], ◌∷◌, arith, codes}
use lex_leo.Memory.{World, Resource}
use lex_leo.Memory.Balance.{Returns}
use lex_leo.UtcTimestamp.{pos}
use lex_leo.Symtab.{Symbol}
use lex_leo.Ast.{TypedData, wrapper}
use lex_leo.Ast.Destruction.{ast_amount, WellTyped}
use lex_leo.RuntimeSession.{
  RuntimeSession, list_contains, same_symbol, runtime_session_store_symbol,
  runtime_session_cleanup_ast_pool,
}
use lex_leo.RuntimeSession.Pools.{
  Distinct, SymbolStored, pool_amount, Every, runtime_session_store_symbol-SymbolStored,
  runtime_session_cleanup_ast_pool-Cleaned,
}
use lex_leo.Tests.{empty_world}

abbrev symbol_a : Symbol
symbol_a = record { addr = 11; name = record { addr = 12; text = codes "a" } }

abbrev symbol_b : Symbol
symbol_b = record { addr = 13; name = record { addr = 14; text = codes "b" } }

-- A session with a symbol and a tree.
abbrev session_of_two : RuntimeSession
session_of_two = record {
  symbol_pool = record { cell = 15; car = symbol_a } ∷ [];
  ast_pool = record { cell = 16; car = wrapper 17 (TypedData.int 18 (pos 2)) } ∷ [];
}

symbols-Distinct : Distinct same_symbol session_of_two.symbol_pool
unfolding list_contains
symbols-Distinct = (refl, tt)

trees-WellTyped : Every WellTyped session_of_two.ast_pool
unfolding WellTyped
trees-WellTyped = (tt, tt)

abbrev with_trees : World
with_trees = record empty_world { live = pool_amount ast_amount session_of_two.ast_pool }

runtime_session_store_symbol-SymbolStored_example :
    Returns
      (λ (good, o) w'. SymbolStored session_of_two symbol_b empty_world good o w')
      (runtime_session_store_symbol (some symbol_b) (some session_of_two) empty_world)
runtime_session_store_symbol-SymbolStored_example =
    runtime_session_store_symbol-SymbolStored session_of_two symbol_b empty_world symbols-Distinct

runtime_session_cleanup_ast_pool-Cleaned_example :
    Returns
      (λ s w'.
        (s ≡ record session_of_two { ast_pool = [] })
        × ((r : Resource)
            → w'.live r + pool_amount ast_amount session_of_two.ast_pool r ≡ with_trees.live r))
      (runtime_session_cleanup_ast_pool session_of_two with_trees)
runtime_session_cleanup_ast_pool-Cleaned_example =
    runtime_session_cleanup_ast_pool-Cleaned session_of_two with_trees trees-WellTyped
      (λ r. omega arith)

-- ===== src/Tests/Trees.antt =====
-- The syntax trees of the archived core on concrete inputs.
use lex_leo.Prelude.{ℕ, List, length, none, ◌≢◌, is_some, ◌≤◌, ◌≡◌, refl, true, some, codes}
use lex_leo.Memory.{World}
use lex_leo.Memory.Balance.{Returns, AllGranted}
use lex_leo.Memory.Release.{Frees}
use lex_leo.UtcTimestamp.{pos}
use lex_leo.Ast.{
  AstType, TypedData, Ast, wrapper, children_node, children, Asts, end, child,
  ast_create_string_node, maximum_error_message_length, ast_create_error_node_or_sentinel,
}
use lex_leo.Ast.Children.{ast_type_has_children, ast_destroy}
use lex_leo.Ast.Destruction.{
  ast_amount, WellTyped, WellTypedChildren, EachWellTyped, ast_destroy-Frees,
}
use lex_leo.Ast.Leaves.{Content, LeafMade, ast_create_string_node-LeafMade}
use lex_leo.Ast.Errors.{IsError, Reported, ast_create_error_node_or_sentinel-Error}
use lex_leo.Ast.Construction.{
  NodeMade, ast_create_children_node_var, ast_create_children_node_var-NodeMade,
}
use lex_leo.Tests.{empty_world}

abbrev two : Ast
two = wrapper 4 (TypedData.int 5 (pos 2))

abbrev three : Ast
three = wrapper 6 (TypedData.int 7 (pos 3))

abbrev operands : Asts
operands = child two (child three end)

-- 2 + 3, with an array of two places.
abbrev sum : Ast
sum = children_node 1 AstType.addition (children 2 (some 3) 2 operands)

sum-WellTyped : WellTyped sum
unfolding WellTyped WellTypedChildren EachWellTyped ast_type_has_children
sum-WellTyped = (refl, (tt, (tt, tt)))

ast_destroy-Frees_example : Frees (ast_amount sum) (ast_destroy sum)
ast_destroy-Frees_example = ast_destroy-Frees sum sum-WellTyped

abbrev with_sum : World
with_sum = record empty_world { live = ast_amount sum }

ast_create_string_node-LeafMade_example :
    Returns
      (LeafMade (Content.string (some (codes "leo"))) empty_world)
      (ast_create_string_node (some (codes "leo")) empty_world)
ast_create_string_node-LeafMade_example =
    ast_create_string_node-LeafMade (some (codes "leo")) empty_world

ast_create_error_node_or_sentinel-Error_example :
    Returns
      (λ a w'.
        Reported 3 empty_world (some (codes "bad")) a w'
        × (AllGranted empty_world
            → (m : List ℕ) → some (codes "bad") ≡ some m
            → length m ≤ maximum_error_message_length
            → IsError 3 m a))
      (ast_create_error_node_or_sentinel 3 (some (codes "bad")) empty_world)
ast_create_error_node_or_sentinel-Error_example =
    ast_create_error_node_or_sentinel-Error 3 (some (codes "bad")) empty_world

ast_create_children_node_var-NodeMade_example :
    Returns
      (λ o w'.
        NodeMade AstType.addition operands empty_world o w'
        × ((AstType.addition ≡ AstType.data_wrapper → o ≡ none)
            × (AllGranted empty_world
                → AstType.addition ≢ AstType.data_wrapper
                → is_some o ≡ true)))
      (ast_create_children_node_var AstType.addition operands empty_world)
ast_create_children_node_var-NodeMade_example =
    ast_create_children_node_var-NodeMade AstType.addition operands empty_world

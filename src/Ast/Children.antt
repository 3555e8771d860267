-- ===== src/Ast/Children.antt =====
-- The nodes with children, and the destruction of trees (ast.c).
use lex_leo.Prelude.{
  ℕ, ◌+◌, ◌*◌, ◌%◌, ◌^◌, Bool, true, false, Option, none, some, List, [], ltb, leb, ◌==◌,
  if◌then◌else◌,
}
use lex_leo.Memory.{M, pure, fail, ◌>>=◌, ◌>>◌, calloc, realloc, free}
use lex_leo.Ast.{
  AstType, TypedData, ErrorInfo, Ast, error_sentinel, wrapper, error_node, children_node,
  AstChildren, children, Asts, end, child, children_nb, append_child, ast_destroy_typed_data,
}

unfoldable pub ast_type_has_children : AstType → Bool
ast_type_has_children AstType.data_wrapper = false
ast_type_has_children AstType.error = false
ast_type_has_children _ = true

unfoldable pub ast_can_have_children : Option Ast → Bool
ast_can_have_children (some (children_node p ty ch)) = ast_type_has_children ty
ast_can_have_children _ = false

some_child : AstChildren → Bool
some_child (children p array capacity as') = ltb 0 (children_nb as')

unfoldable pub ast_has_any_child : Option Ast → Bool
unfolding some_child
ast_has_any_child (some (children_node p ty ch)) =
    if ast_type_has_children ty then some_child ch else false
ast_has_any_child _ = false

unfoldable pub ast_destroy_error_node : (addr : ℕ) → ErrorInfo → M (Unit {0})
ast_destroy_error_node p e = do free e.message.addr; free e.addr; free p

unfoldable pub ast_destroy_typed_data_wrapper : (addr : ℕ) → TypedData → M (Unit {0})
ast_destroy_typed_data_wrapper p d = do ast_destroy_typed_data d; free p

-- `free` of the array, which is `NULL` where no child was ever given.
unfoldable pub free_array : Option ℕ → M (Unit {0})
free_array none = pure tt
free_array (some p) = free p

-- A node whose type is that of a leaf and whose union holds children has no defined destruction: the
-- union would be read as the other member.
unfoldable mutual
  pub ast_destroy : Ast → M (Unit {0})
  ast_destroy error_sentinel = pure tt
  ast_destroy (wrapper p d) = ast_destroy_typed_data_wrapper p d
  ast_destroy (error_node p e) = ast_destroy_error_node p e
  ast_destroy (children_node p ty ch) =
      if ast_type_has_children ty then (do ast_destroy_ast_children ch; free p) else fail

  pub ast_destroy_ast_children : AstChildren → M (Unit {0})
  ast_destroy_ast_children (children p array capacity as') = do
    destroy_each as'
    free_array array
    free p

  pub destroy_each : Asts → M (Unit {0})
  destroy_each end = pure tt
  destroy_each (child a as') = do ast_destroy a; destroy_each as'

unfoldable pub handle_made : Asts → Option ℕ → Option ℕ → M (Option AstChildren)
handle_made as' array none = pure none
handle_made as' array (some p) = pure (some (children p array (children_nb as') as'))

-- The handle takes the caller's array, with the children in it.
unfoldable pub ast_create_ast_children_arr : Asts → (array : Option ℕ) → M (Option AstChildren)
unfolding handle_made
ast_create_ast_children_arr as' array = calloc >>= handle_made as' array

node_made : AstType → AstChildren → Option ℕ → M (Option Ast)
node_made ty ch none = pure none
node_made ty ch (some p) = pure (some (children_node p ty ch))

-- The guard lets the type of an error node pass.
unfoldable pub ast_create_children_node : AstType → Option AstChildren → M (Option Ast)
unfolding node_made
ast_create_children_node AstType.data_wrapper ch = pure none
ast_create_children_node ty none = pure none
ast_create_children_node ty (some ch) = calloc >>= node_made ty ch

unfoldable pub array_moved :
    (addr capacity : ℕ) → Option ℕ → (old : ℕ) → Asts → Option (ℕ × List ℕ) → M (Bool × AstChildren)
array_moved p capacity array old as' none = pure (false, children p array old as')
array_moved p capacity array old as' (some (q, _)) = pure (true, children p (some q) capacity as')

-- `realloc` of `capacity * sizeof(ast *)` bytes, which are computed in `size_t`, keeps the pointers in
-- the array; only the block is counted here.
unfoldable pub ast_children_reserve : AstChildren → (capacity : ℕ) → M (Bool × AstChildren)
unfolding array_moved
ast_children_reserve (children p array old as') capacity =
    if ltb capacity (children_nb as')
    then pure (false, children p array old as')
    else if leb capacity old
    then pure (true, children p array old as')
    else realloc array [] (capacity * 8 % 2 ^ 64) >>= array_moved p capacity array old as'

-- `size_t` has 64 bits.
unfoldable pub next_capacity : ℕ → ℕ
next_capacity capacity = (1 + 2 * capacity) % 2 ^ 64

unfoldable pub appended : (addr : ℕ) → AstType → Ast → Bool × AstChildren → M (Bool × Ast)
appended p ty c (false, ch) = pure (false, children_node p ty ch)
appended p ty c (true, children q array capacity as') =
    pure (true, children_node p ty (children q array capacity (append_child as' c)))

unfoldable pub room_made : AstChildren → M (Bool × AstChildren)
room_made (children q array capacity as') =
    if capacity == children_nb as'
    then ast_children_reserve (children q array capacity as') (next_capacity capacity)
    else pure (true, children q array capacity as')

-- On success the parent has taken the child.
unfoldable pub ast_children_append_take : Ast → Option Ast → M (Bool × Ast)
unfolding room_made
ast_children_append_take (children_node p AstType.data_wrapper ch) c =
    pure (false, children_node p AstType.data_wrapper ch)
ast_children_append_take (children_node p AstType.error ch) c =
    pure (false, children_node p AstType.error ch)
ast_children_append_take (children_node p ty ch) (some c) = room_made ch >>= appended p ty c
ast_children_append_take a c = pure (false, a)

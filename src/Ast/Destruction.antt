-- ===== src/Ast/Destruction.antt =====
-- What a tree owns, and its destruction (ast_destroy of ast.c).
use lex_leo.Prelude.{ℕ, ◌+◌, ◌≡◌, true, Option, none, some}
use lex_leo.Memory.{block, unit, free, ◌>>◌}
use lex_leo.Memory.Release.{Amount, Frees, Frees-then, Frees-none, free-Frees}
use lex_leo.HashtableKey.{Key}
use lex_leo.Ast.{
  TypedData, Ast, error_sentinel, wrapper, error_node, children_node, AstChildren, children, Asts,
  end, child, free_text, ast_destroy_typed_data,
}
use lex_leo.Ast.Children.{
  ast_type_has_children, ast_destroy_error_node, ast_destroy_typed_data_wrapper, free_array,
  ast_destroy, ast_destroy_ast_children, destroy_each,
}

abbrev pub text_amount : Option Key → Amount
text_amount none r = 0
text_amount (some k) r = unit (block k.addr) r

abbrev pub data_amount : TypedData → Amount
data_amount (TypedData.int p i) r = unit (block p) r
data_amount (TypedData.string p s) r = text_amount s r + unit (block p) r
data_amount (TypedData.symbol_name p s) r = unit (block s.addr) r + unit (block p) r
data_amount (TypedData.symbol p s) r = unit (block p) r

abbrev pub array_amount : Option ℕ → Amount
array_amount none r = 0
array_amount (some p) r = unit (block p) r

-- The sentinel is static, and a symbol belongs to its pool.
unfoldable mutual
  pub ast_amount : Ast → Amount
  ast_amount error_sentinel r = 0
  ast_amount (wrapper p d) r = data_amount d r + unit (block p) r
  ast_amount (error_node p e) r =
      unit (block e.message.addr) r + (unit (block e.addr) r + unit (block p) r)
  ast_amount (children_node p ty ch) r = children_amount ch r + unit (block p) r

  pub children_amount : AstChildren → Amount
  children_amount (children p array capacity as') r =
      each_amount as' r + (array_amount array r + unit (block p) r)

  pub each_amount : Asts → Amount
  each_amount end r = 0
  each_amount (child a as') r = ast_amount a r + each_amount as' r

-- Only nodes whose type has children have them, in the whole tree.
unfoldable mutual
  pub WellTyped : Ast → Type 0
  WellTyped error_sentinel = Unit
  WellTyped (wrapper p d) = Unit
  WellTyped (error_node p e) = Unit
  WellTyped (children_node p ty ch) = (ast_type_has_children ty ≡ true) × WellTypedChildren ch

  pub WellTypedChildren : AstChildren → Type 0
  WellTypedChildren (children p array capacity as') = EachWellTyped as'

  pub EachWellTyped : Asts → Type 0
  EachWellTyped end = Unit
  EachWellTyped (child a as') = WellTyped a × EachWellTyped as'

free_text-Frees : (s : Option Key) → Frees (text_amount s) (free_text s)
unfolding free_text
free_text-Frees none = Frees-none
free_text-Frees (some k) = free-Frees k.addr

free_array-Frees : (o : Option ℕ) → Frees (array_amount o) (free_array o)
unfolding free_array
free_array-Frees none = Frees-none
free_array-Frees (some p) = free-Frees p

pub ast_destroy_typed_data-Frees :
    (d : TypedData) → Frees (data_amount d) (ast_destroy_typed_data d)
unfolding ast_destroy_typed_data
ast_destroy_typed_data-Frees (TypedData.int p i) = free-Frees p
ast_destroy_typed_data-Frees (TypedData.string p s) =
    Frees-then (text_amount s) (unit (block p)) (free_text s) (free p) (free_text-Frees s)
      (free-Frees p)
ast_destroy_typed_data-Frees (TypedData.symbol_name p s) =
    Frees-then (unit (block s.addr)) (unit (block p)) (free s.addr) (free p) (free-Frees s.addr)
      (free-Frees p)
ast_destroy_typed_data-Frees (TypedData.symbol p s) = free-Frees p

mutual
  unfolding ast_amount children_amount each_amount WellTyped WellTypedChildren EachWellTyped
      ast_destroy ast_destroy_ast_children destroy_each ast_destroy_error_node
      ast_destroy_typed_data_wrapper

  tree-Frees : (a : Ast) → WellTyped a → Frees (ast_amount a) (ast_destroy a)
  tree-Frees error_sentinel v = Frees-none
  tree-Frees (wrapper p d) v =
      Frees-then (data_amount d) (unit (block p)) (ast_destroy_typed_data d) (free p)
        (ast_destroy_typed_data-Frees d) (free-Frees p)
  tree-Frees (error_node p e) v =
      Frees-then (unit (block e.message.addr)) (λ r. unit (block e.addr) r + unit (block p) r)
        (free e.message.addr) (free e.addr >> free p) (free-Frees e.message.addr)
        (Frees-then (unit (block e.addr)) (unit (block p)) (free e.addr) (free p)
          (free-Frees e.addr) (free-Frees p))
  tree-Frees (children_node p ty ch) v = rw (v.0) (
      Frees-then (children_amount ch) (unit (block p)) (ast_destroy_ast_children ch) (free p)
        (handle-Frees ch v.1) (free-Frees p))

  handle-Frees :
      (ch : AstChildren)
      → WellTypedChildren ch
      → Frees (children_amount ch) (ast_destroy_ast_children ch)
  handle-Frees (children p array capacity as') v =
      Frees-then (each_amount as') (λ r. array_amount array r + unit (block p) r) (destroy_each as')
        (free_array array >> free p) (each-Frees as' v)
        (Frees-then (array_amount array) (unit (block p)) (free_array array) (free p)
          (free_array-Frees array) (free-Frees p))

  each-Frees : (as' : Asts) → EachWellTyped as' → Frees (each_amount as') (destroy_each as')
  each-Frees end v = Frees-none
  each-Frees (child a as') v =
      Frees-then (ast_amount a) (each_amount as') (ast_destroy a) (destroy_each as')
        (tree-Frees a v.0) (each-Frees as' v.1)

-- The destruction of a tree in which only nodes whose type has children have them gives back exactly
-- what the tree owns, at every depth: nodes, handles, arrays, data, texts and messages. The sentinel
-- and the symbols are left.
pub ast_destroy-Frees : (a : Ast) → WellTyped a → Frees (ast_amount a) (ast_destroy a)
ast_destroy-Frees a v = tree-Frees a v

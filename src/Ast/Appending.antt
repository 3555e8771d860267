-- ===== src/Ast/Appending.antt =====
-- The growth of a node's list of children (ast_children_append_take and ast_children_reserve of
-- ast.c).
use lex_leo.Prelude.{ℕ, ◌+◌, ◌*◌, ◌^◌, ◌≤◌, ◌<◌, ◌≡◌, Bool, true, false, Option, none, some, List}
use lex_leo.Memory.{World, Resource, block, unit}
use lex_leo.Memory.Balance.{Balanced}
use lex_leo.Ast.{
  AstType, Ast, children_node, AstChildren, children, Asts, children_nb, append_child,
}
use lex_leo.Ast.Destruction.{array_amount, ast_amount}

-- A reallocation exchanges the block for the new one, or changes nothing.
data Resized (buf : Option ℕ) (w : World) : Option (ℕ × List ℕ) → World → Type 0 where
  moved :
      {q : ℕ} {bytes : List ℕ} {w' : World}
      → ((r : Resource) → w'.live r + array_amount buf r ≡ w.live r + unit (block q) r)
      → Resized buf w (some (q, bytes)) w'
  stayed : {w' : World} → Balanced w w' → Resized buf w none w'

module _ (q : ℕ) (array : Option ℕ) (capacity : ℕ) (as' : Asts) (w : World) where
  -- Room for one more child, in the array or in one that took its place, or none, and the array as
  -- it was.
  data Room : Bool × AstChildren → World → Type 0 where
    room :
        {array' : Option ℕ} {capacity' : ℕ} {w' : World}
        → children_nb as' < capacity'
        → capacity' * 8 < 2 ^ 64
        → ((r : Resource) → w'.live r + array_amount array r ≡ w.live r + array_amount array' r)
        → Room (true, children q array' capacity' as') w'
    no_room : {w' : World} → Balanced w w' → Room (false, children q array capacity as') w'

-- The outcome of an append: the child stands behind the others, the parent owns it, and there is room
-- for all of them, in an array whose size in bytes does not wrap; or the parent is as it was, and the child is still the caller's.
pub data AppendTaken (p : ℕ) (ty : AstType) (q : ℕ) (array : Option ℕ) (capacity : ℕ) (as' : Asts)
    (c : Ast) (w : World) : Bool × Ast → World → Type 0 where
  taken :
      {array' : Option ℕ} {capacity' : ℕ} {w' : World}
      → children_nb (append_child as' c) ≤ capacity'
      → capacity' * 8 < 2 ^ 64
      → ((r : Resource)
          → w'.live r
              + (ast_amount (children_node p ty (children q array capacity as')) r + ast_amount c r)
            ≡ w.live r
              + ast_amount
                  (children_node p ty (children q array' capacity' (append_child as' c)))
                  r)
      → AppendTaken p ty q array capacity as' c w
          (true, children_node p ty (children q array' capacity' (append_child as' c)))
          w'
  not_taken :
      {w' : World}
      → Balanced w w'
      → AppendTaken p ty q array capacity as' c w
          (false, children_node p ty (children q array capacity as'))
          w'

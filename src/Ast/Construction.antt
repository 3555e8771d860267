-- ===== src/Ast/Construction.antt =====
-- The construction of nodes with children (ast_create_ast_children_var and
-- ast_create_children_node_arr and _var of ast.c). The variable arguments are the list of children.
use lex_leo.Prelude.{
  ℕ, ◌+◌, ◌≡◌, refl, inl, inr, true, Option, none, some, [], ◌∷◌, arith, ◌==◌, if◌then◌else◌,
  Bool-cases, suc, ◌≢◌, sym, ◌∙◌, is_some,
}
use lex_leo.Memory.{M, World, Resource, block, pure, free, calloc, ◌>>=◌, ◌>>◌, done, granted}
use lex_leo.Memory.Balance.{
  Returns, returns, bind, Delta, Balanced, Allocated, fresh, exhausted, calloc-Allocated,
  and_then_assoc, Returns-also, AllGranted, done_result,
}
use lex_leo.Memory.Release.{free-Frees}
use lex_leo.Ast.{AstType, Ast, children_node, AstChildren, children, Asts, end, child, children_nb}
use lex_leo.Ast.Children.{ast_create_ast_children_arr, handle_made}
use lex_leo.Ast.Destruction.{ast_amount, children_amount, each_amount}

array_filled : (addr : ℕ) → Asts → Option ℕ → M (Option AstChildren)
array_filled p as' none = do free p; pure none
array_filled p as' (some q) = pure (some (children p (some q) (children_nb as') as'))

children_made : Asts → Option ℕ → M (Option AstChildren)
unfolding array_filled
children_made as' none = pure none
children_made as' (some p) =
    if children_nb as' == 0
    then pure (some (children p none 0 as'))
    else calloc >>= array_filled p as'

unfoldable pub ast_create_ast_children_var : Asts → M (Option AstChildren)
unfolding children_made
ast_create_ast_children_var as' = calloc >>= children_made as'

node_of_handle : AstType → AstChildren → (handle : ℕ) → Option ℕ → M (Option Ast)
node_of_handle ty ch p none = do free p; pure none
node_of_handle ty ch p (some q) = pure (some (children_node q ty ch))

with_handle : AstType → Option AstChildren → M (Option Ast)
unfolding node_of_handle
with_handle ty none = pure none
with_handle ty (some (children p array capacity as')) =
    calloc >>= node_of_handle ty (children p array capacity as') p

-- Where it fails the array is still the caller's.
unfoldable pub ast_create_children_node_arr : AstType → Asts → (array : Option ℕ) → M (Option Ast)
unfolding with_handle
ast_create_children_node_arr AstType.data_wrapper as' array = pure none
ast_create_children_node_arr ty as' array = ast_create_ast_children_arr as' array >>= with_handle ty

handle_in_node : AstType → (addr : ℕ) → (array : Option ℕ) → Option AstChildren → M (Option Ast)
handle_in_node ty p none none = do free p; pure none
handle_in_node ty p (some q) none = do free q; free p; pure none
handle_in_node ty p array (some ch) = pure (some (children_node p ty ch))

array_in_node : AstType → Asts → (addr : ℕ) → Option ℕ → M (Option Ast)
unfolding handle_in_node
array_in_node ty as' p none = do free p; pure none
array_in_node ty as' p (some q) =
    ast_create_ast_children_arr as' (some q) >>= handle_in_node ty p (some q)

node_filled : AstType → Asts → Option ℕ → M (Option Ast)
unfolding array_in_node handle_in_node
node_filled ty as' none = pure none
node_filled ty as' (some p) =
    if children_nb as' == 0
    then ast_create_ast_children_arr end none >>= handle_in_node ty p none
    else calloc >>= array_in_node ty as' p

unfoldable pub ast_create_children_node_var : AstType → Asts → M (Option Ast)
unfolding node_filled
ast_create_children_node_var AstType.data_wrapper as' = pure none
ast_create_children_node_var ty as' = calloc >>= node_filled ty as'

-- The outcome of the construction of a node: it has the type and the children, with a capacity of
-- their number, which it owns from
-- then on with the blocks taken for it; or there is none, nothing is leaked, and the children are
-- still the caller's.
pub data NodeMade (ty : AstType) (as' : Asts) (w : World) : Option Ast → World → Type 0 where
  node_built :
      {p q : ℕ} {array : Option ℕ} {w' : World}
      → ((r : Resource)
          → w'.live r + each_amount as' r
            ≡ w.live r + ast_amount (children_node p ty (children q array (children_nb as') as')) r)
      → NodeMade ty as' w (some (children_node p ty (children q array (children_nb as') as'))) w'
  no_node : {w' : World} → Balanced w w' → NodeMade ty as' w none w'

nothing-eq : (as' : Asts) → (children_nb as' == 0) ≡ true → as' ≡ end
nothing-eq end h = refl
nothing-eq (child a as') h = absurd (ground arith)

module _ (ty : AstType) (as' : Asts) (w : World) where
  handle_made-NodeMade :
      (p q : ℕ) (o : Option ℕ) (w₂ w₃ : World)
      → Delta (block p ∷ block q ∷ []) [] w w₂
      → Allocated w₂ o w₃
      → Returns
          (NodeMade ty as' w)
          ((handle_made as' (some q) o >>= handle_in_node ty p (some q)) w₃)
  unfolding handle_made handle_in_node ast_amount children_amount
  handle_made-NodeMade p q _ w₂ w₃ d (exhausted b) =
      bind (free-Frees q w₃ (λ r. omega (arith, d r, b r))) λ _ w₄ e.
        bind (free-Frees p w₄ (λ r. omega (arith, d r, b r, e r)))
          λ _ w₅ f. returns (no_node (λ r. omega (arith, d r, b r, e r, f r)))
  handle_made-NodeMade p q _ w₂ w₃ d (fresh h b) =
      returns (node_built (λ r. omega (arith, d r, b r)))

  handle_made-empty :
      (p : ℕ) (o : Option ℕ) (w₁ w₂ : World)
      → as' ≡ end
      → Delta (block p ∷ []) [] w w₁
      → Allocated w₁ o w₂
      → Returns (NodeMade ty as' w) ((handle_made end none o >>= handle_in_node ty p none) w₂)
  unfolding handle_made handle_in_node ast_amount children_amount each_amount
  handle_made-empty p _ w₁ w₂ e d (exhausted b) =
      bind (free-Frees p w₂ (λ r. omega (arith, d r, b r)))
        λ _ w₃ f. returns (no_node (λ r. omega (arith, d r, b r, f r)))
  handle_made-empty p _ w₁ w₂ e d (fresh h b) =
      rw e (returns (node_built (λ r. omega (arith, d r, b r))))

  array_in_node-NodeMade :
      (p : ℕ) (o : Option ℕ) (w₁ w₂ : World)
      → Delta (block p ∷ []) [] w w₁
      → Allocated w₁ o w₂
      → Returns (NodeMade ty as' w) (array_in_node ty as' p o w₂)
  unfolding array_in_node ast_create_ast_children_arr
  array_in_node-NodeMade p _ w₁ w₂ d (exhausted b) =
      bind (free-Frees p w₂ (λ r. omega (arith, d r, b r)))
        λ _ w₃ f. returns (no_node (λ r. omega (arith, d r, b r, f r)))
  array_in_node-NodeMade p _ w₁ w₂ d (fresh q b) =
      rw (and_then_assoc (calloc w₂) (handle_made as' (some q)) (handle_in_node ty p (some q))) (
        bind (calloc-Allocated w₂)
          λ o w₃ a. handle_made-NodeMade p q o w₂ w₃ (λ r. omega (arith, d r, b r)) a)

  node_filled-NodeMade :
      (o : Option ℕ) (w₁ : World)
      → Allocated w o w₁
      → Returns (NodeMade ty as' w) (node_filled ty as' o w₁)
  unfolding node_filled ast_create_ast_children_arr
  node_filled-NodeMade _ w₁ (exhausted b) = returns (no_node b)
  node_filled-NodeMade _ w₁ (fresh p d) = elim (Bool-cases (children_nb as' == 0)) [
    | inl e ↦
        rw (e, and_then_assoc (calloc w₁) (handle_made end none) (handle_in_node ty p none))
          (bind (calloc-Allocated w₁) λ o w₂ a. handle_made-empty p o w₁ w₂ (nothing-eq as' e) d a)
    | inr e ↦ rw e (bind (calloc-Allocated w₁) λ o w₂ a. array_in_node-NodeMade p o w₁ w₂ d a)
  ]

var-NodeMade :
    (ty : AstType) (as' : Asts) (w : World)
    → Returns (NodeMade ty as' w) (ast_create_children_node_var ty as' w)
unfolding ast_create_children_node_var
var-NodeMade AstType.data_wrapper as' w = returns (no_node (λ r. refl))
var-NodeMade ty as' w = bind (calloc-Allocated w) λ o w₁ a. node_filled-NodeMade ty as' w o w₁ a

-- Where every request is granted, the block of the node is followed by the array and the handle, or by
-- the handle alone.
node_filled-succeeds :
    (ty : AstType) (as' : Asts) (p : ℕ) (w : World)
    → AllGranted w
    → (a : Ast) × (w' : World) × (node_filled ty as' (some p) w ≡ done (some a) w')
unfolding node_filled array_in_node handle_in_node ast_create_ast_children_arr handle_made calloc
node_filled-succeeds ty as' p w g = elim (Bool-cases (children_nb as' == 0)) [
  | inl e ↦
      (children_node p ty (children w.next none 0 end), granted (block w.next) w, rw (e, g w.next))
  | inr e ↦ (
    children_node p ty (children (suc w.next) (some w.next) (children_nb as') as'),
    granted (block (suc w.next)) (granted (block w.next) w),
    rw (e, g w.next, g (suc w.next)),
  )
]

var-succeeds :
    (ty : AstType) (as' : Asts) (w : World)
    → AllGranted w
    → ty ≢ AstType.data_wrapper
    → (a : Ast) × (w' : World) × (ast_create_children_node_var ty as' w ≡ done (some a) w')
unfolding ast_create_children_node_var calloc
var-succeeds AstType.data_wrapper as' w g ne = absurd (ne refl)
var-succeeds ty as' w g ne =
    let (a, w', e) = node_filled-succeeds ty as' w.next (granted (block w.next) w) g in
    (a, w', rw (g w.next) e)

wrapper-none :
    (ty : AstType) (as' : Asts) (w : World) (o : Option Ast) (w' : World)
    → ty ≡ AstType.data_wrapper
    → ast_create_children_node_var ty as' w ≡ done o w'
    → o ≡ none
unfolding ast_create_children_node_var
wrapper-none AstType.data_wrapper as' w o w' h e = sym (done_result e)
wrapper-none _ as' w o w' h e = absurd (cc h)

-- The construction of a node from the list of its children never aborts. A node is built over its
-- children, in order, with a capacity of their number, and owns them with exactly the blocks taken for
-- it; or there is none, every block taken on the way is given back, and the children are still the
-- caller's. There is none for the type of a wrapper, and for every other type there is one if every
-- request for memory is granted.
pub ast_create_children_node_var-NodeMade :
    (ty : AstType) (as' : Asts) (w : World)
    → Returns
        (λ o w'.
          NodeMade ty as' w o w'
          × ((ty ≡ AstType.data_wrapper → o ≡ none)
              × (AllGranted w → ty ≢ AstType.data_wrapper → is_some o ≡ true)))
        (ast_create_children_node_var ty as' w)
ast_create_children_node_var-NodeMade ty as' w = Returns-also (var-NodeMade ty as' w) λ o w' e. (
  λ is_wrapper. wrapper-none ty as' w o w' is_wrapper e,
  λ g ne. let (a, w₁, f) = var-succeeds ty as' w g ne in rw (done_result (sym e ∙ f)) refl,
)

-- ===== src/Ast/Leaves.antt =====
-- The creation of leaves (ast.c).
use lex_leo.Prelude.{ℕ, ◌≡◌, refl, Option, none, some, List, [], ◌∷◌, arith}
use lex_leo.Memory.{World, block}
use lex_leo.Memory.Balance.{
  Returns, returns, bind, Delta, Balanced, Allocated, fresh, exhausted, calloc-Allocated,
}
use lex_leo.Memory.Release.{Amount, Owning, free-Frees}
use lex_leo.HashtableKey.{Key}
use lex_leo.UtcTimestamp.{ℤ}
use lex_leo.Ast.{
  TypedData, Ast, wrapper, text_made, string_data_made, ast_create_typed_data_string, wrapped,
  ast_create_typed_data_wrapper, leaf_wrapped, wrap_leaf, ast_create_string_node,
}
use lex_leo.Ast.Destruction.{data_amount, ast_amount, ast_destroy_typed_data-Frees}

-- What the data of a leaf says, without its addresses.
pub data Content : Type 0 where
  int : ℤ → Content
  string : Option (List ℕ) → Content
  symbol_name : List ℕ → Content
  symbol : ℕ → Content

text_of : Option Key → Option (List ℕ)
text_of none = none
text_of (some k) = some k.text

unfoldable pub content : TypedData → Content
unfolding text_of
content (TypedData.int p i) = Content.int i
content (TypedData.string p s) = Content.string (text_of s)
content (TypedData.symbol_name p s) = Content.symbol_name s.text
content (TypedData.symbol p s) = Content.symbol s

-- A leaf with that content.
pub record IsLeaf (v : Content) (a : Ast) : Type 0 where
  pub addr : ℕ
  pub info : TypedData
  pub leaf : a ≡ wrapper addr info
  pub says : content info ≡ v

-- The outcome of a creation: something with `P` and exactly what it owns taken, or nothing and no
-- leak.
pub data Made {A : Type 0} (own : A → Amount) (P : A → Type 0) (w : World)
    : Option A → World → Type 0 where
  made : {x : A} {w' : World} → P x → Owning w (own x) w' → Made own P w (some x) w'
  unmade : {w' : World} → Balanced w w' → Made own P w none w'

abbrev DataMade : Content → World → Option TypedData → World → Type 0
DataMade v = Made data_amount (λ d. content d ≡ v)

abbrev pub LeafMade : Content → World → Option Ast → World → Type 0
LeafMade v = Made ast_amount (IsLeaf v)

-- A wrapper round the data, or none.
data Wrapping (d : TypedData) (w : World) : Option Ast → World → Type 0 where
  wrapping :
      (p : ℕ) {w' : World} → Delta (block p ∷ []) [] w w' → Wrapping d w (some (wrapper p d)) w'
  no_wrapping : {w' : World} → Balanced w w' → Wrapping d w none w'

wrapped-Wrapping :
    (d : TypedData) (o : Option ℕ) (w w₁ : World)
    → Allocated w o w₁
    → Returns (Wrapping d w) (wrapped d o w₁)
unfolding wrapped
wrapped-Wrapping d _ w w₁ (exhausted b) = returns (no_wrapping b)
wrapped-Wrapping d _ w w₁ (fresh p b) = returns (wrapping p b)

module _ (v : Content) (w : World) where
  leaf_wrapped-LeafMade :
      (d : TypedData) (o : Option Ast) (w₁ w₂ : World)
      → content d ≡ v
      → Owning w (data_amount d) w₁
      → Wrapping d w₁ o w₂
      → Returns (LeafMade v w) (leaf_wrapped d o w₂)
  unfolding leaf_wrapped ast_amount
  leaf_wrapped-LeafMade d _ w₁ w₂ e own (no_wrapping b) =
      bind (ast_destroy_typed_data-Frees d w₂ (λ r. omega (arith, own r, b r)))
        λ _ w₃ f. returns (unmade (λ r. omega (arith, own r, b r, f r)))
  leaf_wrapped-LeafMade d _ w₁ w₂ e own (wrapping p b) =
      returns (
        made (record { addr = p; info = d; leaf = refl; says = e })
          (λ r. omega (arith, own r, b r)))

  wrap_leaf-LeafMade :
      (o : Option TypedData) (w₁ : World)
      → DataMade v w o w₁
      → Returns (LeafMade v w) (wrap_leaf o w₁)
  unfolding wrap_leaf ast_create_typed_data_wrapper
  wrap_leaf-LeafMade _ w₁ (unmade b) = returns (unmade b)
  wrap_leaf-LeafMade _ w₁ (made {x} e own) =
      bind (bind (calloc-Allocated w₁) λ o w₂ a. wrapped-Wrapping x o w₁ w₂ a)
        λ o w₂ m. leaf_wrapped-LeafMade x o w₁ w₂ e own m

text_made-DataMade :
    (s : List ℕ) (p : ℕ) (o : Option ℕ) (w w₁ w₂ : World)
    → Delta (block p ∷ []) [] w w₁
    → Allocated w₁ o w₂
    → Returns (DataMade (Content.string (some s)) w) (text_made p s o w₂)
unfolding text_made content text_of
text_made-DataMade s p _ w w₁ w₂ d (exhausted b) =
    bind (free-Frees p w₂ (λ r. omega (arith, d r, b r)))
      λ _ w₃ f. returns (unmade (λ r. omega (arith, d r, b r, f r)))
text_made-DataMade s p _ w w₁ w₂ d (fresh q b) = returns (made refl (λ r. omega (arith, d r, b r)))

string_data_made-DataMade :
    (s : Option (List ℕ)) (o : Option ℕ) (w w₁ : World)
    → Allocated w o w₁
    → Returns (DataMade (Content.string s) w) (string_data_made s o w₁)
unfolding string_data_made content text_of
string_data_made-DataMade s _ w w₁ (exhausted b) = returns (unmade b)
string_data_made-DataMade none _ w w₁ (fresh p d) = returns (made refl (λ r. omega (arith, d r)))
string_data_made-DataMade (some s) _ w w₁ (fresh p d) =
    bind (calloc-Allocated w₁) λ o w₂ a. text_made-DataMade s p o w w₁ w₂ d a

-- A string node holds a copy of the text, or no text for `NULL`, and owns exactly the blocks taken for
-- it; where memory runs out at any of the three requests there is no node, and nothing is leaked.
pub ast_create_string_node-LeafMade :
    (s : Option (List ℕ)) (w : World)
    → Returns (LeafMade (Content.string s) w) (ast_create_string_node s w)
unfolding ast_create_string_node ast_create_typed_data_string
ast_create_string_node-LeafMade s w =
    bind (bind (calloc-Allocated w) λ o w₁ a. string_data_made-DataMade s o w w₁ a)
      λ o w₁ m. wrap_leaf-LeafMade (Content.string s) w o w₁ m

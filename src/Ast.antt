-- ===== src/Ast.antt =====
-- The syntax trees of the archived core: ast.c (src/legacy/core_legacy/ast/src). A node is a record of
-- its address and of what its union holds for its type.
pub mod Leaves
pub mod Errors
pub mod Construction
pub mod Children
pub mod Destruction
pub mod Appending
use lex_leo.Prelude.{
  ℕ, suc, ◌+◌, ◌*◌, ◌%◌, ◌^◌, Bool, true, false, not, ◌&&◌, ◌||◌, Option, none, some, List, [], ◌∷◌,
  ltb, leb, ◌==◌, if◌then◌else◌, length,
}
use lex_leo.Memory.{M, pure, fail, ◌>>=◌, ◌>>◌, calloc, realloc, free}
use lex_leo.HashtableKey.{Key}
use lex_leo.UtcTimestamp.{ℤ}

pub data AstType : Type 0 where
  binding reading writing translation_unit block_items block parameters list_of_parameters function
        function_definition arguments list_of_arguments function_call quote eval negation addition
        subtraction multiplication division symbol set conditional_block while_block data_wrapper
        error :
      AstType

-- `typed_data`: its address, and what its union holds. A string is its block with its text.
pub data TypedData : Type 0 where
  int : (addr : ℕ) → (int_value : ℤ) → TypedData
  string : (addr : ℕ) → (string_value : Option Key) → TypedData
  symbol_name : (addr : ℕ) → (string_value : Key) → TypedData
  symbol : (addr symbol_value : ℕ) → TypedData

-- `error_info`; the code is its number in `ast_error_type`.
pub record ErrorInfo : Type 0 where
  pub addr : ℕ
  pub code : ℕ
  pub message : Key

mutual
  -- The node of `ast_error_sentinel` is static.
  pub data Ast : Type 0 where
    error_sentinel : Ast
    wrapper : (addr : ℕ) → TypedData → Ast
    error_node : (addr : ℕ) → ErrorInfo → Ast
    children_node : (addr : ℕ) → AstType → AstChildren → Ast

  -- `ast_children_t`: its address, the array and its capacity, and the children in the array, whose
  -- number is `children_nb`.
  pub data AstChildren : Type 0 where
    children : (addr : ℕ) → (array : Option ℕ) → (capacity : ℕ) → Asts → AstChildren

  pub data Asts : Type 0 where
    end : Asts
    child : Ast → Asts → Asts

abbrev pub children_nb : Asts → ℕ
children_nb end = 0
children_nb (child a as') = suc (children_nb as')

abbrev pub append_child : Asts → Ast → Asts
append_child end c = child c end
append_child (child a as') c = child a (append_child as' c)

-- Creation of the data of leaves.
int_data_made : ℤ → Option ℕ → M (Option TypedData)
int_data_made i none = pure none
int_data_made i (some p) = pure (some (TypedData.int p i))

unfoldable pub ast_create_typed_data_int : ℤ → M (Option TypedData)
unfolding int_data_made
ast_create_typed_data_int i = calloc >>= int_data_made i

text_made : (p : ℕ) → List ℕ → Option ℕ → M (Option TypedData)
text_made p s none = do free p; pure none
text_made p s (some q) = pure (some (TypedData.string p (some (record { addr = q; text = s }))))

string_data_made : Option (List ℕ) → Option ℕ → M (Option TypedData)
unfolding text_made
string_data_made s none = pure none
string_data_made none (some p) = pure (some (TypedData.string p none))
string_data_made (some s) (some p) = calloc >>= text_made p s

unfoldable pub ast_create_typed_data_string : Option (List ℕ) → M (Option TypedData)
unfolding string_data_made
ast_create_typed_data_string s = calloc >>= string_data_made s

name_copied : (p : ℕ) → List ℕ → Option ℕ → M (Option TypedData)
name_copied p s none = do free p; pure none
name_copied p s (some q) = pure (some (TypedData.symbol_name p (record { addr = q; text = s })))

name_data_made : List ℕ → Option ℕ → M (Option TypedData)
unfolding name_copied
name_data_made s none = pure none
name_data_made s (some p) = calloc >>= name_copied p s

unfoldable pub ast_create_typed_data_symbol_name : Option (List ℕ) → M (Option TypedData)
unfolding name_data_made
ast_create_typed_data_symbol_name none = pure none
ast_create_typed_data_symbol_name (some s) = calloc >>= name_data_made s

symbol_data_made : ℕ → Option ℕ → M (Option TypedData)
symbol_data_made s none = pure none
symbol_data_made s (some p) = pure (some (TypedData.symbol p s))

unfoldable pub ast_create_typed_data_symbol : (s : ℕ) → M (Option TypedData)
unfolding symbol_data_made
ast_create_typed_data_symbol s = calloc >>= symbol_data_made s

unfoldable pub free_text : Option Key → M (Unit {0})
free_text none = pure tt
free_text (some k) = free k.addr

-- The `ast_destroy_typed_data_*` of the type of the data.
unfoldable pub ast_destroy_typed_data : TypedData → M (Unit {0})
ast_destroy_typed_data (TypedData.int p i) = free p
ast_destroy_typed_data (TypedData.string p s) = do free_text s; free p
ast_destroy_typed_data (TypedData.symbol_name p s) = do free s.addr; free p
ast_destroy_typed_data (TypedData.symbol p s) = free p

wrapped : TypedData → Option ℕ → M (Option Ast)
wrapped d none = pure none
wrapped d (some p) = pure (some (wrapper p d))

unfoldable pub ast_create_typed_data_wrapper : TypedData → M (Option Ast)
unfolding wrapped
ast_create_typed_data_wrapper d = calloc >>= wrapped d

-- The wrapper of a leaf's data, which is destroyed where there is no memory for it.
leaf_wrapped : TypedData → Option Ast → M (Option Ast)
leaf_wrapped d none = do ast_destroy_typed_data d; pure none
leaf_wrapped d (some a) = pure (some a)

unfoldable pub wrap_leaf : Option TypedData → M (Option Ast)
unfolding leaf_wrapped
wrap_leaf none = pure none
wrap_leaf (some d) = ast_create_typed_data_wrapper d >>= leaf_wrapped d

unfoldable pub ast_create_int_node : ℤ → M (Option Ast)
ast_create_int_node i = ast_create_typed_data_int i >>= wrap_leaf

unfoldable pub ast_create_string_node : Option (List ℕ) → M (Option Ast)
ast_create_string_node str = ast_create_typed_data_string str >>= wrap_leaf

unfoldable pub ast_create_symbol_name_node : Option (List ℕ) → M (Option Ast)
ast_create_symbol_name_node none = pure none
ast_create_symbol_name_node (some str) = ast_create_typed_data_symbol_name (some str) >>= wrap_leaf

-- `sym` is the address of a symbol, or 0 for `NULL`.
unfoldable pub ast_create_symbol_node : (sym : ℕ) → M (Option Ast)
ast_create_symbol_node sym =
    if sym == 0 then pure none else ast_create_typed_data_symbol sym >>= wrap_leaf

abbrev pub maximum_error_message_length : ℕ
maximum_error_message_length = 255

info_made : ℕ → (p : ℕ) → Key → Option ℕ → M (Option Ast)
info_made code p message none = do free message.addr; free p; pure none
info_made code p message (some q) =
    pure (some (error_node p (record { addr = q; code = code; message = message })))

message_made : ℕ → List ℕ → (p : ℕ) → Option ℕ → M (Option Ast)
unfolding info_made
message_made code message p none = do free p; pure none
message_made code message p (some q) =
    calloc >>= info_made code p (record { addr = q; text = message })

error_made : ℕ → List ℕ → Option ℕ → M (Option Ast)
unfolding message_made
error_made code message none = pure none
error_made code message (some p) = calloc >>= message_made code message p

unfoldable pub ast_create_error_node : (code : ℕ) → (message : Option (List ℕ)) → M (Option Ast)
unfolding error_made
ast_create_error_node code none = pure none
ast_create_error_node code (some message) =
    if ltb maximum_error_message_length (length message)
    then pure none
    else calloc >>= error_made code message

or_sentinel : Option Ast → M Ast
or_sentinel none = pure error_sentinel
or_sentinel (some a) = pure a

unfoldable pub ast_create_error_node_or_sentinel : (code : ℕ) → Option (List ℕ) → M Ast
unfolding or_sentinel
ast_create_error_node_or_sentinel code message = ast_create_error_node code message >>= or_sentinel

-- ===== src/Symtab.antt =====
-- The symbol tables of the archived core: symtab.c (src/legacy/core_legacy/symtab). A table is the
-- list of its scopes, the innermost first: `parent` is the rest of the list, and `NULL` the empty one.
pub mod Winding
pub mod Intern
pub mod Resolve
use lex_leo.Prelude.{
  ℕ, Bool, true, false, ◌||◌, Option, none, some, List, [], ◌∷◌, ltb, ◌==◌, if◌then◌else◌, length,
}
use lex_leo.Memory.{M, pure, ◌>>=◌, ◌>>◌, calloc, free}
use lex_leo.HashtableKey.{HashtableKeyType, Key, duplicate_key}
use lex_leo.Hashtable.{
  Hashtable, hashtable_create, hashtable_destroy, hashtable_key_is_in_use, hashtable_get,
  hashtable_add, hashtable_remove,
}

-- A symbol with the copy of its name, which it owns.
pub record Symbol : Type 0 where
  pub addr : ℕ
  pub name : Key

pub record Scope : Type 0 where
  pub addr : ℕ
  pub symbols : Option (Hashtable Symbol)

abbrev pub maximum_symbol_name_length : ℕ
maximum_symbol_name_length = 255

abbrev pub symtab_size : ℕ
symtab_size = 256

bindings_made : (addr : ℕ) → List Scope → Option (Hashtable Symbol) → M (Option (List Scope))
bindings_made addr st none = do free addr; pure none
bindings_made addr st (some ht) = pure (some (record { addr = addr; symbols = some ht } ∷ st))

scope_made : List Scope → Option ℕ → M (Option (List Scope))
unfolding bindings_made
scope_made st none = pure none
scope_made st (some addr) =
    hashtable_create symtab_size HashtableKeyType.string none >>= bindings_made addr st

unfoldable pub symtab_wind_scope : List Scope → M (Option (List Scope))
unfolding scope_made
symtab_wind_scope st = calloc >>= scope_made st

unfoldable pub symtab_unwind_scope : List Scope → M (List Scope)
symtab_unwind_scope [] = pure []
symtab_unwind_scope (s ∷ parent) = do hashtable_destroy s.symbols; free s.addr; pure parent

symbol_added : Scope → List Scope → Symbol → ℕ × Option (Hashtable Symbol) → M (ℕ × List Scope)
symbol_added s parent sym (status, symbols) =
    if status == 1
    then (do free sym.name.addr; free sym.addr; pure (1, record s { symbols = symbols } ∷ parent))
    else pure (0, record s { symbols = symbols } ∷ parent)

name_made : Scope → List Scope → Key → ℕ → Option Key → M (ℕ × List Scope)
unfolding symbol_added
name_made s parent name p none = do free p; pure (1, s ∷ parent)
name_made s parent name p (some copy) =
    let sym : Symbol = record { addr = p; name = copy } in
    hashtable_add s.symbols (some name) (some sym) >>= symbol_added s parent sym

symbol_made : Scope → List Scope → Key → Option ℕ → M (ℕ × List Scope)
unfolding name_made
symbol_made s parent name none = pure (1, s ∷ parent)
symbol_made s parent name (some p) =
    duplicate_key HashtableKeyType.string name >>= name_made s parent name p

intern_in : Scope → List Scope → Key → M (ℕ × List Scope)
unfolding symbol_made
intern_in s parent name =
    if ltb maximum_symbol_name_length (length name.text)
    then pure (1, s ∷ parent)
    else if hashtable_key_is_in_use s.symbols (some name)
    then pure (0, s ∷ parent)
    else calloc >>= symbol_made s parent name

has_symbols : Option (Hashtable Symbol) → Bool
has_symbols none = false
has_symbols (some _) = true

unfoldable pub symtab_intern_symbol : List Scope → Option Key → M (ℕ × List Scope)
unfolding intern_in has_symbols
symtab_intern_symbol (s ∷ parent) (some name) =
    if has_symbols s.symbols then intern_in s parent name else pure (1, s ∷ parent)
symtab_intern_symbol st name = pure (1, st)

unfoldable pub symtab_get_local : List Scope → Option Key → Option Symbol
symtab_get_local [] name = none
symtab_get_local (s ∷ parent) name = hashtable_get s.symbols name

symbol_removed : Scope → List Scope → ℕ × Option (Hashtable Symbol) → M (ℕ × List Scope)
symbol_removed s parent (status, symbols) = pure (status, record s { symbols = symbols } ∷ parent)

unfoldable pub symtab_remove : List Scope → Option Key → M (ℕ × List Scope)
unfolding symbol_removed
symtab_remove [] name = pure (1, [])
symtab_remove (s ∷ parent) name = hashtable_remove s.symbols name >>= symbol_removed s parent

unfoldable pub symtab_contains_local : List Scope → Option Key → Bool
symtab_contains_local [] name = false
symtab_contains_local (s ∷ parent) name = hashtable_key_is_in_use s.symbols name

unfoldable pub symtab_get : List Scope → Option Key → Option Symbol
symtab_get [] name = none
symtab_get (s ∷ parent) name =
    if symtab_contains_local (s ∷ parent) name
    then symtab_get_local (s ∷ parent) name
    else symtab_get parent name

unfoldable pub symtab_contains : List Scope → Option Key → Bool
symtab_contains [] name = false
symtab_contains (s ∷ parent) name =
    if symtab_contains_local (s ∷ parent) name then true else symtab_contains parent name

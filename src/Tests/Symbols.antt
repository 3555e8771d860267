-- ===== src/Tests/Symbols.antt =====
-- The symbol tables of the archived core on concrete inputs.
use lex_leo.Prelude.{
  ℕ, ◌≡◌, ◌≤◌, length, ◌↔◌, refl, sym, inl, inr, ◌%◌, Bool-cases, text_eq, eq_of_text_eq, Option,
  none, some, List, [], ◌∷◌, arith, codes, is_some,
}
use lex_leo.Memory.{World}
use lex_leo.Memory.Balance.{Returns, AllGranted}
use lex_leo.HashtableKey.{HashtableKeyType, Key, djb2, hash_djb2, same_key}
use lex_leo.Hashtable.{
  Hashtable, bucket_at, index_of, find_entry, lookup, hashtable_key_is_in_use, hashtable_get,
}
use lex_leo.Hashtable.Map.{contents}
use lex_leo.Symtab.{
  Symbol, Scope, maximum_symbol_name_length, symtab_intern_symbol, symtab_get, symtab_contains,
  symtab_contains_local, symtab_get_local,
}
use lex_leo.Symtab.Winding.{IsSymbols, IsSymtab, scope_amount}
use lex_leo.Symtab.Intern.{Interned, symtab_intern_symbol-Interned}
use lex_leo.Symtab.Resolve.{Visible, symtab_get_iff, symtab_contains-get}
use lex_leo.Tests.{empty_world}

abbrev name_x : Key
name_x = record { addr = 7; text = codes "x" }

abbrev symbol_x : Symbol
symbol_x = record { addr = 8; name = name_x }

-- Tables of one bucket.
abbrev no_names : Hashtable Symbol
no_names = record {
  addr = 1;
  array = 2;
  buckets = [] ∷ [];
  size = 1;
  key_type = HashtableKeyType.string;
  destroy_value_fn = none;
}

abbrev one_name : Hashtable Symbol
one_name = record no_names {
  buckets = (record { cell = 3; addr = 4; key = name_x; value = some symbol_x } ∷ []) ∷ [];
}

-- In a table of one bucket every name hashes to it.
at_zero : (n : ℕ) → n % 1 ≡ 0
at_zero n = omega arith

no_names-IsSymbols : IsSymbols no_names
unfolding lookup index_of bucket_at find_entry
no_names-IsSymbols = record {
  table = record { nonempty = omega arith; sized = refl; chained = (tt, tt) };
  strings = refl;
  kept = refl;
  named = λ k v h. absurd (let g = rw (at_zero (hash_djb2 k HashtableKeyType.string)) at h in cc g);
}

one_name-named :
    (k : Key) (v : Option Symbol)
    → contents one_name k ≡ some v
    → (x : Symbol) × (v ≡ some x) × (x.name.text ≡ k.text)
unfolding lookup index_of bucket_at find_entry same_key
one_name-named k v h =
    let g = rw (at_zero (hash_djb2 k HashtableKeyType.string)) at h in
    elim (Bool-cases (text_eq k.text (codes "x"))) [
      | inl e ↦ (symbol_x, let f = rw e at g in cc, sym (eq_of_text_eq k.text (codes "x") e))
      | inr e ↦ absurd (let f = rw e at g in cc f)
    ]

one_name-IsSymbols : IsSymbols one_name
unfolding find_entry hash_djb2
one_name-IsSymbols = record {
  table = record { nonempty = omega arith; sized = refl; chained = ((refl, refl, tt), tt) };
  strings = refl;
  kept = refl;
  named = one_name-named;
}

-- The name `x` in the outer of two scopes.
abbrev nested : List Scope
nested =
    record { addr = 5; symbols = some no_names } ∷ record { addr = 6; symbols = some one_name } ∷ []

nested-IsSymtab : IsSymtab nested
nested-IsSymtab = (no_names-IsSymbols, (one_name-IsSymbols, tt))

found_outside : symtab_get nested (some name_x) ≡ some symbol_x
unfolding symtab_get symtab_contains_local symtab_get_local hashtable_key_is_in_use hashtable_get
    lookup index_of bucket_at find_entry hash_djb2 djb2 same_key
found_outside = refl

abbrev outer : Scope
outer = record { addr = 6; symbols = some one_name }

abbrev with_scope : World
with_scope = record empty_world { live = scope_amount outer }

symtab_intern_symbol-Interned_example :
    Returns
      (λ out w'.
        Interned 5 no_names [] name_x empty_world out w'
        × (AllGranted empty_world → length name_x.text ≤ maximum_symbol_name_length → out.0 ≡ 0))
      (symtab_intern_symbol
        (record { addr = 5; symbols = some no_names } ∷ [])
        (some name_x)
        empty_world)
symtab_intern_symbol-Interned_example =
    symtab_intern_symbol-Interned 5 no_names [] name_x empty_world no_names-IsSymbols

symtab_get_iff_example :
    (symtab_get nested (some name_x) ≡ some symbol_x) ↔ Visible name_x symbol_x nested
symtab_get_iff_example = symtab_get_iff name_x nested symbol_x nested-IsSymtab

symtab_contains-get_example :
    symtab_contains nested (some name_x) ≡ is_some (symtab_get nested (some name_x))
symtab_contains-get_example = symtab_contains-get name_x nested nested-IsSymtab

-- ===== src/Symtab/Intern.antt =====
-- The interning of names (symtab_intern_symbol of symtab.c).
use lex_leo.Prelude.{
  ℕ, ◌+◌, ◌≤◌, ◌<◌, ◌≡◌, sym, ap, ◌∙◌, inl, inr, Option, none, some, List, ◌∷◌, arith, ltb, ltb→ge,
  ltb→lt, ge→ltb, false, if◌then◌else◌, Bool-cases, Option-cases, length, text_eq, eq_of_text_eq,
}
use lex_leo.Memory.{World, Resource, block, unit, done, granted, calloc}
use lex_leo.Memory.Balance.{
  Returns, returns, bind, Balanced, Returns-also, AllGranted, done_result, Allocated, fresh,
  exhausted, calloc-Allocated,
}
use lex_leo.Memory.Release.{Amount, Owning, free-Frees}
use lex_leo.HashtableKey.{HashtableKeyType, Key, same_key, duplicate_key, key_copied}
use lex_leo.Hashtable.{Hashtable, hashtable_key_is_in_use}
use lex_leo.Hashtable.Ownership.{table_amount}
use lex_leo.Hashtable.Map.{contents, Updated}
use lex_leo.Hashtable.Map.Create.{hashtable_get-contents}
use lex_leo.Hashtable.Map.Add.{
  Added, added, rejected, Copied, copied, not_copied, duplicate_key-Copied, hashtable_add-Added,
  hashtable_add-succeeds,
}
use lex_leo.Symtab.{
  Symbol, Scope, maximum_symbol_name_length, symbol_added, name_made, symbol_made, intern_in,
  has_symbols, symtab_intern_symbol,
}
use lex_leo.Symtab.Winding.{IsSymbols, no_symbol}

abbrev pub symbol_amount : Symbol → Amount
symbol_amount x r = unit (block x.addr) r + unit (block x.name.addr) r

abbrev pub scope_of : (addr : ℕ) → Hashtable Symbol → Scope
scope_of addr ht = record { addr = addr; symbols = some ht }

-- The outcome of interning a name: it is there already; or it is too long; or it is bound to a new
-- symbol of that name, and to nothing else, with the blocks of the symbol and of the entry taken; or
-- memory ran out, the scope is as it was, and nothing is leaked.
pub data Interned (addr : ℕ) (ht : Hashtable Symbol) (parent : List Scope) (name : Key) (w : World)
    : ℕ × List Scope → World → Type 0 where
  known :
      (x : Symbol)
      → contents ht name ≡ some (some x)
      → Interned addr ht parent name w (0, scope_of addr ht ∷ parent) w
  too_long :
      maximum_symbol_name_length < length name.text
      → Interned addr ht parent name w (1, scope_of addr ht ∷ parent) w
  interned :
      {ht' : Hashtable Symbol} {w' : World} (x : Symbol)
      → length name.text ≤ maximum_symbol_name_length
      → contents ht name ≡ none
      → IsSymbols ht'
      → x.name.text ≡ name.text
      → ((j : Key)
          → contents ht' j ≡ (if text_eq j.text name.text then some (some x) else contents ht j))
      → ((r : Resource)
          → w'.live r + table_amount no_symbol ht r
            ≡ w.live r + table_amount no_symbol ht' r + symbol_amount x r)
      → Interned addr ht parent name w (0, scope_of addr ht' ∷ parent) w'
  out_of_memory :
      {w' : World}
      → Balanced w w'
      → Interned addr ht parent name w (1, scope_of addr ht ∷ parent) w'

same_key-text :
    (kt : HashtableKeyType) (j k : Key)
    → kt ≡ HashtableKeyType.string
    → same_key kt j k ≡ text_eq j.text k.text
unfolding same_key
same_key-text kt j k e = rw e

module _ (addr : ℕ) (ht : Hashtable Symbol) (parent : List Scope) (name : Key) (w : World)
    (v : IsSymbols ht) where
  Updated-text :
      (ht' : Hashtable Symbol) (x : Symbol)
      → Updated ht name (some (some x)) ht'
      → (j : Key)
      → contents ht' j ≡ (if text_eq j.text name.text then some (some x) else contents ht j)
  Updated-text ht' x u j = rw (← same_key-text ht.key_type j name v.strings) (u.at j)

  Updated-IsSymbols :
      (ht' : Hashtable Symbol) (x : Symbol)
      → x.name.text ≡ name.text
      → Updated ht name (some (some x)) ht'
      → IsSymbols ht'
  Updated-IsSymbols ht' x e u = record {
    table = u.valid;
    strings = u.key_type ∙ v.strings;
    kept = u.destroy ∙ v.kept;
    named = λ k y h. elim (Bool-cases (text_eq k.text name.text)) [
      | inl q ↦
          let f = Updated-text ht' x u k in
          let t = eq_of_text_eq k.text name.text q in
          (x, let g : contents ht' k ≡ some (some x) = rw q at f in cc, e ∙ sym t)
      | inr q ↦
          let f = Updated-text ht' x u k in
          let g : contents ht' k ≡ contents ht k = rw q at f in v.named k y (sym g ∙ h)
    ];
  }

  symbol_added-Interned :
      (x : Symbol) (out : ℕ × Option (Hashtable Symbol)) (w₁ w₂ : World)
      → length name.text ≤ maximum_symbol_name_length
      → x.name.text ≡ name.text
      → Owning w (symbol_amount x) w₁
      → Added no_symbol ht name (some x) w₁ out w₂
      → Returns (Interned addr ht parent name w) (symbol_added (scope_of addr ht) parent x out w₂)
  unfolding symbol_added
  symbol_added-Interned x _ w₁ w₂ l e o (rejected b) =
      bind (free-Frees x.name.addr w₂ (λ r. omega (arith, o r, b r))) λ _ w₃ d.
        bind (free-Frees x.addr w₃ (λ r. omega (arith, o r, b r, d r)))
          λ _ w₄ d'. returns (out_of_memory (λ r. omega (arith, o r, b r, d r, d' r)))
  symbol_added-Interned x _ w₁ w₂ l e o (added {ht'} n u a) = returns (
      interned x l n (Updated-IsSymbols ht' x e u) e (Updated-text ht' x u)
        λ r. omega (arith, o r, a r))

  name_made-Interned :
      (p : ℕ) (o : Option Key) (w₁ w₂ : World)
      → length name.text ≤ maximum_symbol_name_length
      → Owning w (unit (block p)) w₁
      → Copied HashtableKeyType.string name w₁ o w₂
      → Returns (Interned addr ht parent name w) (name_made (scope_of addr ht) parent name p o w₂)
  unfolding name_made same_key
  name_made-Interned p _ w₁ w₂ l o (not_copied b) =
      bind (free-Frees p w₂ (λ r. omega (arith, o r, b r)))
        λ _ w₃ d. returns (out_of_memory (λ r. omega (arith, o r, b r, d r)))
  name_made-Interned p _ w₁ w₂ l o (copied c q b) =
      let x : Symbol = record { addr = p; name = c } in
      bind (hashtable_add-Added no_symbol ht v.table name (some x) w₂) λ out w₃ a.
        symbol_added-Interned x out w₂ w₃ l (sym (eq_of_text_eq name.text c.text q))
          (λ r. omega (arith, o r, b r)) a

  symbol_made-Interned :
      (o : Option ℕ) (w₁ : World)
      → length name.text ≤ maximum_symbol_name_length
      → Allocated w o w₁
      → Returns (Interned addr ht parent name w) (symbol_made (scope_of addr ht) parent name o w₁)
  unfolding symbol_made
  symbol_made-Interned _ w₁ l (exhausted b) = returns (out_of_memory b)
  symbol_made-Interned _ w₁ l (fresh p d) =
      bind (duplicate_key-Copied HashtableKeyType.string name w₁)
        λ o w₂ c. name_made-Interned p o w₁ w₂ l (λ r. omega (arith, d r)) c

  intern_in-Interned :
      Returns (Interned addr ht parent name w) (intern_in (scope_of addr ht) parent name w)
  unfolding intern_in
  intern_in-Interned = elim (Bool-cases (ltb maximum_symbol_name_length (length name.text))) [
    | inl e ↦ rw e (returns (too_long (ltb→lt _ _ e)))
    | inr e ↦
        let (u, g) = hashtable_get-contents ht name in
        elim (Option-cases (contents ht name)) [
          | inl n ↦
              rw (e, u, n)
                (bind (calloc-Allocated w) λ o w₁ a. symbol_made-Interned o w₁ (ltb→ge _ _ e) a)
          | inr (y, f) ↦
              let (x, p, q) = v.named name y f in rw (e, u, f) (returns (known x (f ∙ ap some p)))
        ]
  ]

  intern-Interned :
      Returns
        (Interned addr ht parent name w)
        (symtab_intern_symbol (scope_of addr ht ∷ parent) (some name) w)
  unfolding symtab_intern_symbol has_symbols
  intern-Interned = intern_in-Interned

  -- Where every request is granted, a name of at most 255 bytes is interned or found.
  intern_in-succeeds :
      AllGranted w
      → length name.text ≤ maximum_symbol_name_length
      → (st : List Scope) × (w' : World) × (symtab_intern_symbol
            (scope_of addr ht ∷ parent)
            (some name)
            w
          ≡ done (0, st) w')
  unfolding symtab_intern_symbol has_symbols intern_in symbol_made name_made symbol_added calloc
      duplicate_key key_copied
  intern_in-succeeds g short =
      let (u, q) = hashtable_get-contents ht name in
      let short_enough = ge→ltb maximum_symbol_name_length (length name.text) short in
      elim (Option-cases (contents ht name)) [
        | inl n ↦
            let w₁ = granted (block w.next) w in
            let w₂ = granted (block w₁.next) w₁ in
            let copy : Key = record { addr = w₁.next; text = name.text } in
            let x : Symbol = record { addr = w.next; name = copy } in
            let unused : hashtable_key_is_in_use (some ht) (some name) ≡ false = rw (u, n) in
            let (ht', w₃, e) = hashtable_add-succeeds ht name (some x) w₂ g unused in
            (scope_of addr ht' ∷ parent, w₃, rw (short_enough, u, n, g w.next, g w₁.next, e))
        | inr (y, f) ↦ (scope_of addr ht ∷ parent, w, rw (short_enough, u, f))
      ]

  -- Interning a name in a table never aborts, and does one of four things: it finds the symbol that
  -- the name has, which leaves everything as it is; it refuses a name of more than 255 bytes; it binds
  -- a name of at most 255 bytes that has none to a new symbol of that name, and nothing else; or
  -- it reports an error, with the table as it was and nothing leaked. If every request for memory is
  -- granted, a name of at most 255 bytes is found or bound.
  pub symtab_intern_symbol-Interned :
      Returns
        (λ out w'.
          Interned addr ht parent name w out w'
          × (AllGranted w → length name.text ≤ maximum_symbol_name_length → out.0 ≡ 0))
        (symtab_intern_symbol (scope_of addr ht ∷ parent) (some name) w)
  symtab_intern_symbol-Interned = Returns-also intern-Interned λ out w' e g short.
      let (st, w₁, f) = intern_in-succeeds g short in ap (λ x. x.0) (done_result (sym e ∙ f))

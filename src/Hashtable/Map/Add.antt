-- ===== src/Hashtable/Map/Add.antt =====
-- Additions to a table (hashtable_add of hashtable.c).
use lex_leo.Prelude.{
  ℕ, ◌+◌, ◌≡◌, refl, inl, inr, true, false, Option, none, some, arith, ==_refl, Option-cases,
  text_eq_refl,
}
use lex_leo.Memory.{Resource, World, block, unit, calloc, done, granted}
use lex_leo.Memory.Balance.{
  Returns, returns, bind, Balanced, Allocated, fresh, exhausted, calloc-Allocated,
}
use lex_leo.Memory.Release.{Amount, Owning, free-Frees}
use lex_leo.HashtableKey.{HashtableKeyType, Key, same_key, duplicate_key, key_copied}
use lex_leo.Hashtable.{
  Entry, Hashtable, lookup, hashtable_key_is_in_use, push_entry, cell_made, key_made, entry_made,
  hashtable_add,
}
use lex_leo.Hashtable.Buckets.{IsTable}
use lex_leo.Hashtable.Ownership.{key_amount, table_amount, table_amount-push_entry, free_key-Frees}
use lex_leo.Hashtable.Map.{contents, Updated, push_entry-Updated}

-- A copy of a key has the key, and what it takes is what it owns.
pub data Copied (kt : HashtableKeyType) (k : Key) (w : World) : Option Key → World → Type 0 where
  copied :
      (c : Key) {w' : World}
      → same_key kt k c ≡ true
      → Owning w (key_amount kt c) w'
      → Copied kt k w (some c) w'
  not_copied : {w' : World} → Balanced w w' → Copied kt k w none w'

key_copied-Copied :
    (k : Key) (o : Option ℕ) (w w' : World)
    → Allocated w o w'
    → Returns (Copied HashtableKeyType.string k w) (key_copied k o w')
unfolding key_copied same_key
key_copied-Copied k _ w w' (exhausted e) = returns (not_copied e)
key_copied-Copied k _ w w' (fresh p e) =
    returns
      (copied (record { addr = p; text = k.text }) (text_eq_refl k.text) λ r. omega (arith, e r))

pub duplicate_key-Copied :
    (kt : HashtableKeyType) (k : Key) (w : World) → Returns (Copied kt k w) (duplicate_key kt k w)
unfolding duplicate_key same_key
duplicate_key-Copied HashtableKeyType.pointer k w =
    returns (copied k (==_refl k.addr) λ r. omega arith)
duplicate_key-Copied HashtableKeyType.string k w =
    bind (calloc-Allocated w) λ o w' a. key_copied-Copied k o w w' a

module _ {V : Type 0} (own : Option V → Amount) where
  -- The outcome of an addition: a new key is mapped to the value, which the table owns from then on;
  -- or the table stays as it is, and nothing is leaked.
  pub data Added (ht : Hashtable V) (k : Key) (v : Option V) (w : World)
      : ℕ × Option (Hashtable V) → World → Type 0 where
    added :
        {ht' : Hashtable V} {w' : World}
        → contents ht k ≡ none
        → Updated ht k (some v) ht'
        → ((r : Resource)
            → w'.live r + (table_amount own ht r + own v r) ≡ w.live r + table_amount own ht' r)
        → Added ht k v w (0, some ht') w'
    rejected : {w' : World} → Balanced w w' → Added ht k v w (1, some ht) w'

  module _ (ht : Hashtable V) (valid : IsTable ht) (k : Key) (v : Option V) (w : World) where
    cell_made-Added :
        (addr : ℕ) (c : Key) (o : Option ℕ) (w₁ w₂ : World)
        → lookup ht k ≡ none
        → same_key ht.key_type k c ≡ true
        → Owning w (λ r. unit (block addr) r + key_amount ht.key_type c r) w₁
        → Allocated w₁ o w₂
        → Returns (Added ht k v w) (cell_made ht k addr c v o w₂)
    unfolding cell_made
    cell_made-Added addr c _ w₁ w₂ n q own₁ (exhausted e) =
        bind (free_key-Frees ht.key_type c w₂ (λ r. omega (arith, own₁ r, e r))) λ _ w₃ d₃.
          bind (free-Frees addr w₃ (λ r. omega (arith, own₁ r, e r, d₃ r)))
            λ _ w₄ d₄. returns (rejected (λ r. omega (arith, own₁ r, e r, d₃ r, d₄ r)))
    cell_made-Added addr c _ w₁ w₂ n q own₁ (fresh p e) =
        let x : Entry V = record { cell = p; addr = addr; key = c; value = v } in
        returns (
          added (rw n) (push_entry-Updated ht valid k x n q)
            λ r. omega (arith, table_amount-push_entry own ht valid k x r, own₁ r, e r))

    key_made-Added :
        (addr : ℕ) (o : Option Key) (w₁ w₂ : World)
        → lookup ht k ≡ none
        → Owning w (unit (block addr)) w₁
        → Copied ht.key_type k w₁ o w₂
        → Returns (Added ht k v w) (key_made ht k addr v o w₂)
    unfolding key_made
    key_made-Added addr _ w₁ w₂ n own₁ (not_copied e) =
        bind (free-Frees addr w₂ (λ r. omega (arith, own₁ r, e r)))
          λ _ w₃ d₃. returns (rejected (λ r. omega (arith, own₁ r, e r, d₃ r)))
    key_made-Added addr _ w₁ w₂ n own₁ (copied c q e) =
        bind (calloc-Allocated w₂)
          λ o w₃ a. cell_made-Added addr c o w₂ w₃ n q (λ r. omega (arith, own₁ r, e r)) a

    entry_made-Added :
        (o : Option ℕ) (w₁ : World)
        → lookup ht k ≡ none
        → Allocated w o w₁
        → Returns (Added ht k v w) (entry_made ht k v o w₁)
    unfolding entry_made
    entry_made-Added _ w₁ n (exhausted e) = returns (rejected e)
    entry_made-Added _ w₁ n (fresh p e) =
        bind (duplicate_key-Copied ht.key_type k w₁)
          λ o w₂ c. key_made-Added p o w₁ w₂ n (λ r. omega (arith, e r)) c

    -- An addition to a table maps a new key to the value, which the table owns from then on together
    -- with the blocks taken for it; or it reports an error, the table stays as it is, and every block
    -- that was taken on the way is given back.
    pub hashtable_add-Added : Returns (Added ht k v w) (hashtable_add (some ht) (some k) v w)
    unfolding hashtable_add hashtable_key_is_in_use
    hashtable_add-Added = elim (Option-cases (lookup ht k)) [
      | inl n ↦ rw n (bind (calloc-Allocated w) λ o w₁ a. entry_made-Added o w₁ n a)
      | inr (e, q) ↦ rw q (returns (rejected (λ r. refl)))
    ]

-- Where every request is granted, a key is copied.
duplicate_key-succeeds :
    (kt : HashtableKeyType) (k : Key) (w : World)
    → ((n : ℕ) → w.grants n ≡ true)
    → (c : Key) × (w' : World) × (duplicate_key kt k w ≡ done (some c) w') × (w'.grants ≡ w.grants)
unfolding duplicate_key key_copied calloc
duplicate_key-succeeds HashtableKeyType.pointer k w g = (k, w, refl, refl)
duplicate_key-succeeds HashtableKeyType.string k w g =
    (record { addr = w.next; text = k.text }, granted (block w.next) w, rw (g w.next), refl)

module _ {V : Type 0} where
  -- Where every request for memory is granted, the addition of a key that is not in use succeeds.
  pub hashtable_add-succeeds :
      (ht : Hashtable V) (k : Key) (v : Option V) (w : World)
      → ((n : ℕ) → w.grants n ≡ true)
      → hashtable_key_is_in_use (some ht) (some k) ≡ false
      → (ht' : Hashtable V) × (w' : World) × (hashtable_add (some ht) (some k) v w
          ≡ done (0, some ht') w')
  unfolding hashtable_add entry_made key_made cell_made calloc
  hashtable_add-succeeds ht k v w g n =
      let (c, w', e, q) = duplicate_key-succeeds ht.key_type k (granted (block w.next) w) g in
      (
        push_entry ht k (record { cell = w'.next; addr = w.next; key = c; value = v }),
        granted (block w'.next) w',
        rw (n, g w.next, e, q, g w'.next),
      )

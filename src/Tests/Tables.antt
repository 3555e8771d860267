-- ===== src/Tests/Tables.antt =====
-- The hash table and the symbol tables of the archived core on concrete inputs.
use lex_leo.Prelude.{ℕ, ◌≡◌, refl, false, Option, none, some, [], ◌∷◌, arith, codes}
use lex_leo.Memory.{World, done}
use lex_leo.Memory.Balance.{Returns}
use lex_leo.Memory.Release.{Amount, Frees}
use lex_leo.HashtableKey.{HashtableKeyType, Key, djb2, hash_djb2, same_key}
use lex_leo.Hashtable.{
  Hashtable, bucket_at, index_of, find_entry, lookup, hashtable_key_is_in_use, hashtable_get,
  hashtable_add, hashtable_reset_value, hashtable_remove, hashtable_destroy,
}
use lex_leo.Hashtable.Buckets.{IsTable}
use lex_leo.Hashtable.Ownership.{Destroyer, borrowed, table_amount, hashtable_destroy-Frees}
use lex_leo.Hashtable.Map.Add.{Added, hashtable_add-Added, hashtable_add-succeeds}
use lex_leo.Hashtable.Map.Change.{Changed, hashtable_reset_value-Changed, hashtable_remove-Changed}
use lex_leo.Tests.{empty_world}

-- Values that the table does not own.
abbrev pub unowned : Option ℕ → Amount
unowned v r = 0

-- Keys that are pointers.
abbrev five : Key
five = record { addr = 5; text = [] }

abbrev seven : Key
seven = record { addr = 7; text = [] }

-- Two buckets, and the key 5 with the value 50 in the second one.
abbrev one_entry : Hashtable ℕ
one_entry = record {
  addr = 1;
  array = 2;
  buckets = [] ∷ (record { cell = 3; addr = 4; key = five; value = some 50 } ∷ []) ∷ [];
  size = 2;
  key_type = HashtableKeyType.pointer;
  destroy_value_fn = none;
}

one_entry-IsTable : IsTable one_entry
unfolding hash_djb2 find_entry
one_entry-IsTable = record {
  nonempty = omega arith;
  sized = refl;
  chained = (tt, ((refl, refl, tt), tt));
}

unowned-Destroyer : Destroyer unowned none
unowned-Destroyer = borrowed (λ v r. refl)

-- A world that holds exactly the table.
abbrev with_table : World
with_table = record empty_world { live = table_amount unowned one_entry }

-- hash_djb2("ab") = (5381 * 33 + 97) * 33 + 98
hash_of_ab : hash_djb2 (record { addr = 0; text = codes "ab" }) HashtableKeyType.string ≡ 5863208
unfolding hash_djb2 djb2
hash_of_ab = refl

found_five : hashtable_get (some one_entry) (some five) ≡ some 50
unfolding hashtable_get lookup index_of bucket_at find_entry hash_djb2 same_key
found_five = refl

seven_free : hashtable_key_is_in_use (some one_entry) (some seven) ≡ false
unfolding hashtable_key_is_in_use lookup index_of bucket_at find_entry hash_djb2 same_key
seven_free = refl

hashtable_add-Added_example :
    Returns
      (Added unowned one_entry seven (some 70) with_table)
      (hashtable_add (some one_entry) (some seven) (some 70) with_table)
hashtable_add-Added_example =
    hashtable_add-Added unowned one_entry one_entry-IsTable seven (some 70) with_table

hashtable_add-succeeds_example :
    (ht' : Hashtable ℕ) × (w' : World) × (hashtable_add
        (some one_entry)
        (some seven)
        (some 70)
        with_table
      ≡ done (0, some ht') w')
hashtable_add-succeeds_example =
    hashtable_add-succeeds one_entry seven (some 70) with_table (λ n. refl) seven_free

hashtable_reset_value-Changed_example :
    Returns
      (Changed unowned one_entry five (some (some 51)) (unowned (some 51)) with_table)
      (hashtable_reset_value (some one_entry) (some five) (some 51) with_table)
hashtable_reset_value-Changed_example =
    hashtable_reset_value-Changed unowned one_entry one_entry-IsTable unowned-Destroyer five
      with_table (λ r. omega arith) (some 51)

hashtable_remove-Changed_example :
    Returns
      (Changed unowned one_entry five none (λ r. 0) with_table)
      (hashtable_remove (some one_entry) (some five) with_table)
hashtable_remove-Changed_example =
    hashtable_remove-Changed unowned one_entry one_entry-IsTable unowned-Destroyer five with_table
      λ r. omega arith

hashtable_destroy-Frees_example :
    Frees (table_amount unowned one_entry) (hashtable_destroy (some one_entry))
hashtable_destroy-Frees_example = hashtable_destroy-Frees unowned one_entry unowned-Destroyer

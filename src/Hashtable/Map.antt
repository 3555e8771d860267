-- ===== src/Hashtable/Map.antt =====
-- The table as a finite map from keys to values (hashtable.c).
pub mod Add
pub mod Change
pub mod Create
use lex_leo.Prelude.{
  ℕ, zero, suc, ◌+◌, ◌≤◌, ◌<◌, ◌≡◌, ◌≢◌, refl, sym, ap, ◌∙◌, ◌%◌, inl, inr, Bool, true, false,
  Option, none, some, List, [], ◌∷◌, arith, ◌==◌, if◌then◌else◌, is_some, Bool-cases, Option-cases,
  length, replicate, length-replicate,
}
use lex_leo.Memory.{M, Resource, World, block, unit, ◌>>◌, ◌>>=◌, pure, free, calloc}
use lex_leo.Memory.Balance.{
  Returns, returns, bind, weaken, Delta, Balanced, Allocated, fresh, exhausted, calloc-Allocated,
}
use lex_leo.Memory.Release.{Amount, Owning, Frees, free-Frees}
use lex_leo.HashtableKey.{HashtableKeyType, Key, hash_djb2, same_key, duplicate_key, free_key}
use lex_leo.Hashtable.{
  Entry, Hashtable, bucket_at, index_of, find_entry, lookup, found_value, hashtable_key_is_in_use,
  hashtable_get, with_bucket, push_entry, cell_made, key_made, entry_made, hashtable_add,
  reset_last, value_reset, hashtable_reset_value, unlink, entry_unlinked, free_unlinked,
  hashtable_remove, buckets_made, table_made, hashtable_create, destroy_value,
}
use lex_leo.Hashtable.Chain.{
  Chain, same_key_refl, same_key_sym, same_key-right, hash_djb2_cong, find_entry_cong, Reset,
  reset_last_lem, Unlinked, unlink_lem,
}
use lex_leo.Hashtable.Buckets.{
  Chains, IsTable, bucket_of-Chain, with_bucket-IsTable, lookup-with_bucket, index_of-in_range,
}
use lex_leo.Hashtable.Ownership.{
  key_amount, Destroyer, entry_amount, chain_amount, buckets_amount, table_amount,
  buckets_amount-empty, table_amount-with_bucket, Exchanged, reset_last-Exchanged, Extracted,
  unlink-Extracted, free_key-Frees, destroy_value-Frees, free_unlinked-Frees,
}

module _ {V : Type 0} where
  abbrev pub value_at : Option (Entry V) → Option (Option V)
  value_at none = none
  value_at (some e) = some e.value

  -- The map that a table stands for.
  abbrev pub contents : Hashtable V → Key → Option (Option V)
  contents ht k = value_at (lookup ht k)

  -- `ht'` is the table `ht` with the map changed to `o` at the key `k`, and nowhere else.
  pub record Updated (ht : Hashtable V) (k : Key) (o : Option (Option V)) (ht' : Hashtable V)
      : Type 0 where
    pub valid : IsTable ht'
    pub key_type : ht'.key_type ≡ ht.key_type
    pub destroy : ht'.destroy_value_fn ≡ ht.destroy_value_fn
    pub at : (j : Key) → contents ht' j ≡ (if same_key ht.key_type j k then o else contents ht j)

  pub with_bucket-Updated :
      (ht : Hashtable V)
      → IsTable ht
      → (k : Key) (b : List (Entry V)) (o : Option (Entry V))
      → Chain ht.key_type ht.size (index_of ht k) b
      → ((j : Key)
          → find_entry ht.key_type j b ≡ (
              if same_key ht.key_type j k
              then o
              else find_entry ht.key_type j (bucket_at (index_of ht k) ht.buckets)))
      → Updated ht k (value_at o) (with_bucket ht k b)
  unfolding with_bucket
  with_bucket-Updated ht v k b o c h = record {
    valid = with_bucket-IsTable ht v k b c;
    key_type = refl;
    destroy = refl;
    at = λ j.
        rw (lookup-with_bucket ht v k b o h j)
          (elim (Bool-cases (same_key ht.key_type j k)) [ inl q ↦ rw q | inr q ↦ rw q ]);
  }

  pub push_entry-Updated :
      (ht : Hashtable V)
      → IsTable ht
      → (k : Key) (e : Entry V) → lookup ht k ≡ none
      → same_key ht.key_type k e.key ≡ true
      → Updated ht k (some e.value) (push_entry ht k e)
  unfolding push_entry lookup index_of find_entry
  push_entry-Updated ht v k e n q =
      with_bucket-Updated ht v k (e ∷ bucket_at (index_of ht k) ht.buckets) (some e)
        (
          ap (λ n. n % ht.size) (sym (hash_djb2_cong ht.key_type k e.key q)),
          sym (find_entry_cong ht.key_type k e.key _ q) ∙ n,
          bucket_of-Chain ht v k,
        )
        λ j. rw (same_key-right ht.key_type k e.key j q)

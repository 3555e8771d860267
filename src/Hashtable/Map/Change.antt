-- ===== src/Hashtable/Map/Change.antt =====
-- Changes of the entry of a key: hashtable_reset_value and hashtable_remove of hashtable.c.
use lex_leo.Prelude.{ℕ, ◌+◌, ◌≤◌, ◌≡◌, false, Option, none, some, List, [], arith, ◌==◌}
use lex_leo.Memory.{Resource, World}
use lex_leo.Memory.Balance.{Returns, returns, bind}
use lex_leo.Memory.Release.{Amount}
use lex_leo.HashtableKey.{Key}
use lex_leo.Hashtable.{
  Entry, Hashtable, bucket_at, index_of, lookup, reset_last, value_reset, hashtable_reset_value,
  unlink, entry_unlinked, hashtable_remove,
}
use lex_leo.Hashtable.Chain.{Reset, reset_last_lem, Unlinked, unlink_lem}
use lex_leo.Hashtable.Buckets.{IsTable, bucket_of-Chain}
use lex_leo.Hashtable.Ownership.{
  Destroyer, chain_amount, table_amount, table_amount-with_bucket, Exchanged, reset_last-Exchanged,
  Extracted, unlink-Extracted, destroy_value-Frees, free_unlinked-Frees,
}
use lex_leo.Hashtable.Map.{contents, Updated, with_bucket-Updated}

module _ {V : Type 0} (own : Option V → Amount) where
  -- The outcome of a change of the entry at a key: the map is `o` there from then on, the table owns
  -- the amount `a` in addition, and what the old entry owned and the new one does not is given back; or
  -- there is no such key, and nothing happens.
  pub data Changed (ht : Hashtable V) (k : Key) (o : Option (Option V)) (a : Amount) (w : World)
      : ℕ × Option (Hashtable V) → World → Type 0 where
    changed :
        {ht' : Hashtable V} {w' : World} {old : Option V}
        → contents ht k ≡ some old
        → Updated ht k o ht'
        → ((r : Resource)
            → w'.live r + (table_amount own ht r + a r) ≡ w.live r + table_amount own ht' r)
        → Changed ht k o a w (0, some ht') w'
    absent : contents ht k ≡ none → Changed ht k o a w (1, some ht) w

  module _ (ht : Hashtable V) (valid : IsTable ht) (d : Destroyer own ht.destroy_value_fn) (k : Key)
      (w : World) (holds : (r : Resource) → table_amount own ht r ≤ w.live r) where
    nonzero : (ht.size == 0) ≡ false
    nonzero = let h = valid.nonempty in ground arith

    -- What a bucket owns is a part of what the table owns.
    bucket-le :
        (r : Resource)
        → chain_amount own ht.key_type (bucket_at (index_of ht k) ht.buckets) r ≤ w.live r
    bucket-le r = omega (arith, holds r, table_amount-with_bucket own ht valid k [] r)

    value_reset-Changed :
        (v : Option V) (o : Option (Option V × List (Entry V)))
        → Reset ht.key_type ht.size (index_of ht k) k v (bucket_at (index_of ht k) ht.buckets) o
        → Exchanged own ht.key_type v (bucket_at (index_of ht k) ht.buckets) o
        → Returns (Changed ht k (some v) (own v) w) (value_reset ht k o w)
    unfolding value_reset lookup
    value_reset-Changed v _ (Reset.missing m) x = returns (absent (rw m))
    value_reset-Changed v _ (Reset.assigned {es'} {x} f c g) ex =
        bind
          (destroy_value-Frees own ht.destroy_value_fn x.value d w
            (λ r. omega (arith, (ex r).1, bucket-le r)))
          λ _ w' e. returns (
            changed {old = x.value} (rw f)
              (with_bucket-Updated ht valid k es' (some (record x { value = v })) c g)
              λ r. omega (arith, e r, (ex r).0, table_amount-with_bucket own ht valid k es' r))

    -- A reset of a key maps it to the new value, which the table owns from then on, and gives back
    -- exactly what the old value owned; without the key it reports an error and does nothing.
    pub hashtable_reset_value-Changed :
        (v : Option V)
        → Returns (Changed ht k (some v) (own v) w) (hashtable_reset_value (some ht) (some k) v w)
    unfolding hashtable_reset_value
    hashtable_reset_value-Changed v =
        let c = bucket_of-Chain ht valid k in
        rw nonzero (
          value_reset-Changed v (reset_last ht.key_type k v (bucket_at (index_of ht k) ht.buckets))
            (reset_last_lem ht.key_type ht.size (index_of ht k) k v _ c)
            (reset_last-Exchanged own ht.key_type k v _))

    entry_unlinked-Changed :
        (o : Option (Entry V × List (Entry V)))
        → Unlinked ht.key_type ht.size (index_of ht k) k (bucket_at (index_of ht k) ht.buckets) o
        → Extracted own ht.key_type (bucket_at (index_of ht k) ht.buckets) o
        → Returns (Changed ht k none (λ r. 0) w) (entry_unlinked ht k o w)
    unfolding entry_unlinked lookup
    entry_unlinked-Changed _ (Unlinked.missing m) x = returns (absent (rw m))
    entry_unlinked-Changed _ (Unlinked.removed {es'} {x} f c g) ex =
        bind (free_unlinked-Frees own ht d x w (λ r. omega (arith, ex r, bucket-le r))) λ _ w' e.
          returns (
            changed {old = x.value} (rw f) (with_bucket-Updated ht valid k es' none c g)
              λ r. omega (arith, e r, ex r, table_amount-with_bucket own ht valid k es' r))

    -- A removal of a key takes it out of the map and gives back exactly what its entry owned: the cell,
    -- the entry, the copy of a string key and the value; without the key it reports an error and does
    -- nothing. No other key is touched.
    pub hashtable_remove-Changed :
        Returns (Changed ht k none (λ r. 0) w) (hashtable_remove (some ht) (some k) w)
    unfolding hashtable_remove
    hashtable_remove-Changed =
        let c = bucket_of-Chain ht valid k in
        rw nonzero (
          entry_unlinked-Changed (unlink ht.key_type k (bucket_at (index_of ht k) ht.buckets))
            (unlink_lem ht.key_type ht.size (index_of ht k) k _ c)
            (unlink-Extracted own ht.key_type k _))

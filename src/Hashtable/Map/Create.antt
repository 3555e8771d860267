-- ===== src/Hashtable/Map/Create.antt =====
-- The creation of a table, and what it answers (hashtable.c).
use lex_leo.Prelude.{
  ℕ, zero, suc, ◌<◌, ◌≡◌, refl, ◌%◌, inl, inr, Option, none, some, [], ◌∷◌, arith, ◌==◌, is_some,
  Bool-cases, Option-cases, replicate, length-replicate,
}
use lex_leo.Memory.{M, World, block}
use lex_leo.Memory.Balance.{
  Returns, returns, bind, Delta, Balanced, Allocated, fresh, exhausted, calloc-Allocated,
}
use lex_leo.Memory.Release.{Amount, Owning, free-Frees}
use lex_leo.HashtableKey.{HashtableKeyType, Key, hash_djb2}
use lex_leo.Hashtable.{
  Entry, Hashtable, bucket_at, index_of, find_entry, lookup, found_value, hashtable_key_is_in_use,
  hashtable_get, buckets_made, table_made, hashtable_create,
}
use lex_leo.Hashtable.Buckets.{Chains, IsTable}
use lex_leo.Hashtable.Ownership.{table_amount, buckets_amount-empty}
use lex_leo.Hashtable.Map.{contents}

module _ {V : Type 0} where
  abbrev value_or_null : Option (Option V) → Option V
  value_or_null none = none
  value_or_null (some v) = v

  -- What the two reading functions answer is what the map says: a key is in use if the map has it,
  -- and the value is `NULL` where the map has none.
  pub hashtable_get-contents :
      (ht : Hashtable V) (k : Key)
      → (hashtable_key_is_in_use (some ht) (some k) ≡ is_some (contents ht k))
        × (hashtable_get (some ht) (some k) ≡ value_or_null (contents ht k))
  unfolding hashtable_key_is_in_use hashtable_get found_value
  hashtable_get-contents ht k = elim (Option-cases (lookup ht k)) [
    | inl n ↦ rw n (refl, refl)
    | inr (e, q) ↦ rw q (refl, refl)
  ]

  bucket_at-replicate : (i n : ℕ) → bucket_at {A = Entry V} i (replicate n []) ≡ []
  unfolding bucket_at
  bucket_at-replicate i zero = refl
  bucket_at-replicate zero (suc n) = refl
  bucket_at-replicate (suc i) (suc n) = bucket_at-replicate i n

Chains-replicate :
    (V : Type 0) (kt : HashtableKeyType) (size i n : ℕ) → Chains {V = V} kt size i (replicate n [])
Chains-replicate V kt size i zero = tt
Chains-replicate V kt size i (suc n) = (tt, Chains-replicate V kt size (suc i) n)

module _ {V : Type 0} (own : Option V → Amount) where
  -- The outcome of a creation: a valid table that maps nothing, with its two blocks, or no table and
  -- no leak.
  pub data Created (size : ℕ) (kt : HashtableKeyType) (destroy : Option (Option V → M (Unit {0})))
      (w : World) : Option (Hashtable V) → World → Type 0 where
    made :
        {ht : Hashtable V} {w' : World}
        → IsTable ht
        → ht.key_type ≡ kt
        → ht.destroy_value_fn ≡ destroy
        → ((k : Key) → contents ht k ≡ none)
        → Owning w (table_amount own ht) w'
        → Created size kt destroy w (some ht) w'
    not_made : {w' : World} → Balanced w w' → Created size kt destroy w none w'

  module _ (size : ℕ) (kt : HashtableKeyType) (destroy : Option (Option V → M (Unit {0})))
      (w : World) where
    buckets_made-Created :
        0 < size
        → (addr : ℕ) (o : Option ℕ) (w₁ w₂ : World) → Delta (block addr ∷ []) [] w w₁
        → Allocated w₁ o w₂
        → Returns (Created size kt destroy w) (buckets_made addr size kt destroy o w₂)
    unfolding buckets_made lookup find_entry bucket_at index_of
    buckets_made-Created positive addr _ w₁ w₂ d (exhausted e) =
        bind (free-Frees addr w₂ (λ r. omega (arith, d r, e r)))
          λ _ w₃ f. returns (not_made (λ r. omega (arith, d r, e r, f r)))
    buckets_made-Created positive addr _ w₁ w₂ d (fresh p e) = returns (
        made
          (record {
            nonempty = positive;
            sized = length-replicate size [];
            chained = Chains-replicate V kt size 0 size;
          })
          refl refl (λ k. rw (bucket_at-replicate (hash_djb2 k kt % size) size))
          λ r. omega (arith, d r, e r, buckets_amount-empty own kt size r))

    table_made-Created :
        0 < size
        → (o : Option ℕ) (w₁ : World) → Allocated w o w₁
        → Returns (Created size kt destroy w) (table_made size kt destroy o w₁)
    unfolding table_made
    table_made-Created positive _ w₁ (exhausted e) = returns (not_made e)
    table_made-Created positive _ w₁ (fresh p e) =
        bind (calloc-Allocated w₁) λ o w₂ a. buckets_made-Created positive p o w₁ w₂ e a

    -- The creation of a table yields a valid table of that key type and callback in which no key is
    -- mapped, with exactly its handle and its array taken; or it yields none and leaks nothing.
    pub hashtable_create-Created :
        Returns (Created size kt destroy w) (hashtable_create size kt destroy w)
    unfolding hashtable_create
    hashtable_create-Created = elim (Bool-cases (size == 0)) [
      | inl z ↦ rw z (returns (not_made (λ r. refl)))
      | inr z ↦ rw z (bind (calloc-Allocated w) λ o w₁ a. table_made-Created (ground arith) o w₁ a)
    ]

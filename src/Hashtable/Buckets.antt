-- ===== src/Hashtable/Buckets.antt =====
-- The array of buckets: the invariant of a table, and what a change of one bucket does to searches
-- in the table (hashtable.c).
use lex_leo.Prelude.{
  ℕ, zero, suc, ◌+◌, ◌%◌, ◌<◌, ◌≡◌, refl, ap, ◌∙◌, inl, inr, true, Option, List, [], ◌∷◌, arith,
  ◌==◌, if◌then◌else◌, Bool-cases, length,
}
use native.Mathlib.Nat.{mod-lt}
use lex_leo.HashtableKey.{HashtableKeyType, Key, hash_djb2, same_key}
use lex_leo.Hashtable.{
  Entry, Hashtable, bucket_at, set_bucket, index_of, find_entry, lookup, with_bucket,
}
use lex_leo.Hashtable.Chain.{Chain, hash_djb2_cong}

module _ {A : Type 0} where
  length-set_bucket :
      (i : ℕ) (b : List A) (bs : List (List A)) → length (set_bucket i b bs) ≡ length bs
  unfolding set_bucket
  length-set_bucket i b [] = refl
  length-set_bucket zero b (c ∷ bs) = refl
  length-set_bucket (suc i) b (c ∷ bs) = ap suc (length-set_bucket i b bs)

  pub bucket_at-set_bucket :
      (i j : ℕ) (b : List A) (bs : List (List A))
      → i < length bs
      → bucket_at j (set_bucket i b bs) ≡ (if j == i then b else bucket_at j bs)
  unfolding set_bucket bucket_at
  bucket_at-set_bucket i j b [] h = absurd (omega arith)
  bucket_at-set_bucket zero zero b (c ∷ bs) h = refl
  bucket_at-set_bucket zero (suc j) b (c ∷ bs) h = ground arith
  bucket_at-set_bucket (suc i) zero b (c ∷ bs) h = ground arith
  bucket_at-set_bucket (suc i) (suc j) b (c ∷ bs) h =
      rw (bucket_at-set_bucket i j b bs (omega arith)) (ground arith)

module _ {V : Type 0} where
  -- Every bucket from the `i`-th on is a chain.
  abbrev pub Chains : HashtableKeyType → (size i : ℕ) → List (List (Entry V)) → Type 0
  Chains kt size i [] = Unit
  Chains kt size i (b ∷ bs) = Chain kt size i b × Chains kt size (suc i) bs

  -- The table has as many buckets as its size says, and at least one; each entry stands in the
  -- bucket of its hash value, and no two entries have the same key.
  pub record IsTable (ht : Hashtable V) : Type 0 where
    pub nonempty : 0 < ht.size
    pub sized : length ht.buckets ≡ ht.size
    pub chained : Chains ht.key_type ht.size 0 ht.buckets

  Chain-cong :
      (kt : HashtableKeyType) (size i j : ℕ) (es : List (Entry V))
      → i ≡ j
      → Chain kt size i es
      → Chain kt size j es
  Chain-cong kt size i j es e c = rw e at c

  bucket_at-Chain :
      (kt : HashtableKeyType) (size i j : ℕ) (bs : List (List (Entry V)))
      → Chains kt size j bs
      → i < length bs
      → Chain kt size (j + i) (bucket_at i bs)
  unfolding bucket_at
  bucket_at-Chain kt size i j [] c h = absurd (omega arith)
  bucket_at-Chain kt size zero j (b ∷ bs) c h = Chain-cong kt size j (j + zero) b (omega arith) c.0
  bucket_at-Chain kt size (suc i) j (b ∷ bs) c h =
      Chain-cong kt size (suc j + i) (j + suc i) (bucket_at i bs) (omega arith)
        (bucket_at-Chain kt size i (suc j) bs c.1 (omega arith))

  set_bucket-Chains :
      (kt : HashtableKeyType) (size i j : ℕ) (b : List (Entry V)) (bs : List (List (Entry V)))
      → Chains kt size j bs
      → Chain kt size (j + i) b
      → Chains kt size j (set_bucket i b bs)
  unfolding set_bucket
  set_bucket-Chains kt size i j b [] c h = tt
  set_bucket-Chains kt size zero j b (x ∷ bs) c h =
      (Chain-cong kt size (j + zero) j b (omega arith) h, c.1)
  set_bucket-Chains kt size (suc i) j b (x ∷ bs) c h = (
    c.0,
    set_bucket-Chains kt size i (suc j) b bs c.1
        (Chain-cong kt size (j + suc i) (suc j + i) b (omega arith) h),
  )

  found_at :
      (kt : HashtableKeyType) (j k : Key) (i i' : ℕ) (b : List (Entry V))
      (bs : List (List (Entry V))) (o : Option (Entry V))
      → i < length bs
      → ((l : Key)
          → find_entry kt l b ≡ (if same_key kt l k then o else find_entry kt l (bucket_at i bs)))
      → (same_key kt j k ≡ true → i' ≡ i)
      → find_entry kt j (bucket_at i' (set_bucket i b bs))
        ≡ (if same_key kt j k then o else find_entry kt j (bucket_at i' bs))
  found_at kt j k i i' b bs o h f g = elim (Bool-cases (i' == i)) [
    | inl e ↦ let p : i' ≡ i = ground arith in rw (bucket_at-set_bucket i i' b bs h, e, p) (f j)
    | inr e ↦
        rw (bucket_at-set_bucket i i' b bs h, e)
          (elim (Bool-cases (same_key kt j k)) [
            | inl q ↦ absurd (let p = g q in ground arith)
            | inr q ↦ rw q
          ])
  ]

  module _ (ht : Hashtable V) (v : IsTable ht) where
    pub index_of-in_range : (k : Key) → index_of ht k < length ht.buckets
    unfolding index_of
    index_of-in_range k =
        let p = mod-lt (hash_djb2 k ht.key_type) {m = ht.size} v.nonempty in
        omega (arith, v.sized, p)

    pub bucket_of-Chain :
        (k : Key) → Chain ht.key_type ht.size (index_of ht k) (bucket_at (index_of ht k) ht.buckets)
    bucket_of-Chain k =
        Chain-cong ht.key_type ht.size (0 + index_of ht k) (index_of ht k)
          (bucket_at (index_of ht k) ht.buckets) (omega arith)
          (bucket_at-Chain ht.key_type ht.size (index_of ht k) 0 ht.buckets v.chained
            (index_of-in_range k))

    pub with_bucket-IsTable :
        (k : Key) (b : List (Entry V))
        → Chain ht.key_type ht.size (index_of ht k) b
        → IsTable (with_bucket ht k b)
    unfolding with_bucket
    with_bucket-IsTable k b c = record {
      nonempty = v.nonempty;
      sized = length-set_bucket (index_of ht k) b ht.buckets ∙ v.sized;
      chained =
          set_bucket-Chains ht.key_type ht.size (index_of ht k) 0 b ht.buckets v.chained
            (Chain-cong ht.key_type ht.size (index_of ht k) (0 + index_of ht k) b (omega arith) c);
    }

    -- A changed bucket at `k` that changes only what is found at the key `k` does so for the table.
    pub lookup-with_bucket :
        (k : Key) (b : List (Entry V)) (o : Option (Entry V))
        → ((j : Key)
            → find_entry ht.key_type j b ≡ (
                if same_key ht.key_type j k
                then o
                else find_entry ht.key_type j (bucket_at (index_of ht k) ht.buckets)))
        → (j : Key)
        → lookup (with_bucket ht k b) j ≡ (if same_key ht.key_type j k then o else lookup ht j)
    unfolding lookup with_bucket index_of
    lookup-with_bucket k b o h j =
        found_at ht.key_type j k (index_of ht k) (index_of ht j) b ht.buckets o
          (index_of-in_range k) h λ q. ap (λ n. n % ht.size) (hash_djb2_cong ht.key_type j k q)

-- ===== src/Hashtable.antt =====
-- The chained hash table of the archived core (src/legacy/foundation_legacy/data_structures,
-- hashtable.c), which its symbol tables are built on. A bucket is the list of its entries, each with
-- the addresses of its cons cell and of the entry. `V` is what a value that is not `NULL` points to.
pub mod Chain
pub mod Buckets
pub mod Ownership
pub mod Map
use lex_leo.Prelude.{
  ℕ, zero, suc, ◌+◌, ◌*◌, ◌%◌, ◌^◌, Bool, true, false, Option, none, some, List, [], ◌∷◌, ◌==◌,
  if◌then◌else◌, is_some, replicate, text_eq,
}
use lex_leo.HashtableKey.{HashtableKeyType, Key, hash_djb2, same_key, duplicate_key, free_key}
use lex_leo.Memory.{M, pure, ◌>>=◌, ◌>>◌, calloc, free}

pub record Entry (V : Type 0) : Type 0 where
  pub cell : ℕ
  pub addr : ℕ
  pub key : Key
  pub value : Option V

pub record Hashtable (V : Type 0) : Type 0 where
  pub addr : ℕ
  pub array : ℕ
  pub buckets : List (List (Entry V))
  pub size : ℕ
  pub key_type : HashtableKeyType
  pub destroy_value_fn : Option (Option V → M (Unit {0}))

module _ {A : Type 0} where
  -- `buckets[i]`. Nothing stands behind the end; the tables below are not read there.
  unfoldable pub bucket_at : ℕ → List (List A) → List A
  bucket_at i [] = []
  bucket_at zero (b ∷ bs) = b
  bucket_at (suc i) (b ∷ bs) = bucket_at i bs

  -- `buckets[i] = b`
  unfoldable pub set_bucket : ℕ → List A → List (List A) → List (List A)
  set_bucket i b [] = []
  set_bucket zero b (c ∷ bs) = b ∷ bs
  set_bucket (suc i) b (c ∷ bs) = c ∷ set_bucket i b bs

module _ {V : Type 0} where
  unfoldable pub index_of : Hashtable V → Key → ℕ
  index_of ht key = hash_djb2 key ht.key_type % ht.size

  -- The search along a bucket, which stops at the first entry with the key.
  unfoldable pub find_entry : HashtableKeyType → Key → List (Entry V) → Option (Entry V)
  find_entry kt key [] = none
  find_entry kt key (e ∷ bucket) =
      if same_key kt key e.key then some e else find_entry kt key bucket

  unfoldable pub lookup : Hashtable V → Key → Option (Entry V)
  lookup ht key = find_entry ht.key_type key (bucket_at (index_of ht key) ht.buckets)

  unfoldable pub hashtable_key_is_in_use : Option (Hashtable V) → Option Key → Bool
  hashtable_key_is_in_use (some ht) (some key) = is_some (lookup ht key)
  hashtable_key_is_in_use _ _ = false

  found_value : Option (Entry V) → Option V
  found_value none = none
  found_value (some e) = e.value

  unfoldable pub hashtable_get : Option (Hashtable V) → Option Key → Option V
  unfolding found_value
  hashtable_get (some ht) (some key) = found_value (lookup ht key)
  hashtable_get _ _ = none

  buckets_made :
      (addr size : ℕ)
      → HashtableKeyType
      → Option (Option V → M (Unit {0}))
      → Option ℕ
      → M (Option (Hashtable V))
  buckets_made addr size kt destroy none = do free addr; pure none
  buckets_made addr size kt destroy (some array) = pure (
      some (record {
        addr = addr;
        array = array;
        buckets = replicate size [];
        size = size;
        key_type = kt;
        destroy_value_fn = destroy;
      }))

  table_made :
      (size : ℕ)
      → HashtableKeyType
      → Option (Option V → M (Unit {0}))
      → Option ℕ
      → M (Option (Hashtable V))
  unfolding buckets_made
  table_made size kt destroy none = pure none
  table_made size kt destroy (some addr) = calloc >>= buckets_made addr size kt destroy

  -- `malloc` is a request like `calloc`: every field is set, and the array is filled with zeros.
  unfoldable pub hashtable_create :
      (size : ℕ) → HashtableKeyType → Option (Option V → M (Unit {0})) → M (Option (Hashtable V))
  unfolding table_made
  hashtable_create size kt destroy =
      if size == 0 then pure none else calloc >>= table_made size kt destroy

  unfoldable pub destroy_value : Option (Option V → M (Unit {0})) → Option V → M (Unit {0})
  destroy_value none value = pure tt
  destroy_value (some destroy) value = destroy value

  unfoldable pub with_bucket : Hashtable V → Key → List (Entry V) → Hashtable V
  with_bucket ht key bucket = record ht { buckets = set_bucket (index_of ht key) bucket ht.buckets }

  -- The table with the entry in front of its bucket.
  unfoldable pub push_entry : Hashtable V → Key → Entry V → Hashtable V
  push_entry ht key e = with_bucket ht key (e ∷ bucket_at (index_of ht key) ht.buckets)

  cell_made :
      Hashtable V
      → Key
      → (addr : ℕ) → (copy : Key) → Option V
      → Option ℕ
      → M (ℕ × Option (Hashtable V))
  cell_made ht key addr copy value none = do free_key ht.key_type copy; free addr; pure (1, some ht)
  cell_made ht key addr copy value (some c) =
      pure
        (0, some (push_entry ht key (record { cell = c; addr = addr; key = copy; value = value })))

  key_made : Hashtable V → Key → (addr : ℕ) → Option V → Option Key → M (ℕ × Option (Hashtable V))
  unfolding cell_made
  key_made ht key addr value none = do free addr; pure (1, some ht)
  key_made ht key addr value (some copy) = calloc >>= cell_made ht key addr copy value

  entry_made : Hashtable V → Key → Option V → Option ℕ → M (ℕ × Option (Hashtable V))
  unfolding key_made
  entry_made ht key value none = pure (1, some ht)
  entry_made ht key value (some addr) = duplicate_key ht.key_type key >>= key_made ht key addr value

  unfoldable pub hashtable_add :
      Option (Hashtable V) → Option Key → Option V → M (ℕ × Option (Hashtable V))
  unfolding entry_made
  hashtable_add (some ht) (some key) value =
      if hashtable_key_is_in_use (some ht) (some key)
      then pure (1, some ht)
      else calloc >>= entry_made ht key value
  hashtable_add ht key value = pure (1, ht)

  -- The assignment to the last entry with the key, with the value that stood there. The loop runs on
  -- after a match, so that a later one replaces it.
  reset_here :
      HashtableKeyType
      → Key
      → Option V
      → Entry V
      → List (Entry V)
      → Option (Option V × List (Entry V))
      → Option (Option V × List (Entry V))
  reset_here kt key value e bucket (some (old, bucket')) = some (old, e ∷ bucket')
  reset_here kt key value e bucket none =
      if same_key kt key e.key then some (e.value, record e { value = value } ∷ bucket) else none

  unfoldable pub reset_last :
      HashtableKeyType → Key → Option V → List (Entry V) → Option (Option V × List (Entry V))
  unfolding reset_here
  reset_last kt key value [] = none
  reset_last kt key value (e ∷ bucket) =
      reset_here kt key value e bucket (reset_last kt key value bucket)

  value_reset :
      Hashtable V → Key → Option (Option V × List (Entry V)) → M (ℕ × Option (Hashtable V))
  value_reset ht key none = pure (1, some ht)
  value_reset ht key (some (old, bucket)) = do
    destroy_value ht.destroy_value_fn old
    pure (0, some (with_bucket ht key bucket))

  unfoldable pub hashtable_reset_value :
      Option (Hashtable V) → Option Key → Option V → M (ℕ × Option (Hashtable V))
  unfolding value_reset
  hashtable_reset_value (some ht) (some key) value =
      if ht.size == 0
      then pure (1, some ht)
      else value_reset ht key
          (reset_last ht.key_type key value (bucket_at (index_of ht key) ht.buckets))
  hashtable_reset_value ht key value = pure (1, ht)

  -- The first entry with the key, and the bucket without it.
  unlink_here :
      Entry V
      → Bool
      → List (Entry V)
      → Option (Entry V × List (Entry V))
      → Option (Entry V × List (Entry V))
  unlink_here e true bucket later = some (e, bucket)
  unlink_here e false bucket none = none
  unlink_here e false bucket (some (found, rest)) = some (found, e ∷ rest)

  unfoldable pub unlink :
      HashtableKeyType → Key → List (Entry V) → Option (Entry V × List (Entry V))
  unfolding unlink_here
  unlink kt key [] = none
  unlink kt key (e ∷ bucket) = unlink_here e (same_key kt key e.key) bucket (unlink kt key bucket)

  unfoldable pub free_unlinked : Hashtable V → Entry V → M (Unit {0})
  free_unlinked ht e = do
    destroy_value ht.destroy_value_fn e.value
    free_key ht.key_type e.key
    free e.addr
    free e.cell

  entry_unlinked :
      Hashtable V → Key → Option (Entry V × List (Entry V)) → M (ℕ × Option (Hashtable V))
  entry_unlinked ht key none = pure (1, some ht)
  entry_unlinked ht key (some (e, bucket)) = do
    free_unlinked ht e
    pure (0, some (with_bucket ht key bucket))

  unfoldable pub hashtable_remove : Option (Hashtable V) → Option Key → M (ℕ × Option (Hashtable V))
  unfolding entry_unlinked
  hashtable_remove (some ht) (some key) =
      if ht.size == 0
      then pure (1, some ht)
      else entry_unlinked ht key (unlink ht.key_type key (bucket_at (index_of ht key) ht.buckets))
  hashtable_remove ht key = pure (1, ht)

  unfoldable pub hashtable_destroy_entry : Hashtable V → Entry V → M (Unit {0})
  hashtable_destroy_entry ht e = do
    free_key ht.key_type e.key
    destroy_value ht.destroy_value_fn e.value
    free e.addr

  -- `list_free_list` over a bucket.
  unfoldable pub list_free_list : Hashtable V → List (Entry V) → M (Unit {0})
  list_free_list ht [] = pure tt
  list_free_list ht (e ∷ bucket) = do
    hashtable_destroy_entry ht e
    free e.cell
    list_free_list ht bucket

  unfoldable pub destroy_buckets : Hashtable V → List (List (Entry V)) → M (Unit {0})
  destroy_buckets ht [] = pure tt
  destroy_buckets ht (b ∷ buckets) = do list_free_list ht b; destroy_buckets ht buckets

  unfoldable pub hashtable_destroy : Option (Hashtable V) → M (Unit {0})
  hashtable_destroy none = pure tt
  hashtable_destroy (some ht) = do destroy_buckets ht ht.buckets; free ht.array; free ht.addr

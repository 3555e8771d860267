-- ===== src/Hashtable/Ownership.antt =====
-- What a table owns (hashtable.c): its handle and array, and for each entry the cons cell, the entry,
-- the copy of a string key, and the value.
use lex_leo.Prelude.{
  ℕ, zero, suc, ◌+◌, ◌≤◌, ◌<◌, ◌≡◌, refl, inl, inr, Bool, true, false, Option, none, some, List, [],
  ◌∷◌, arith, length, Bool-cases, replicate,
}
use lex_leo.Memory.{M, Resource, block, unit, ◌>>◌, pure, free}
use lex_leo.Memory.Release.{Amount, Frees, Frees-then, Frees-none, Frees-cong, free-Frees}
use lex_leo.HashtableKey.{HashtableKeyType, Key, free_key, same_key}
use lex_leo.Hashtable.{
  Entry, Hashtable, bucket_at, set_bucket, destroy_value, reset_here, reset_last, unlink_here,
  unlink, hashtable_destroy_entry, list_free_list, destroy_buckets, hashtable_destroy, with_bucket,
  push_entry, index_of, free_unlinked,
}
use lex_leo.Hashtable.Buckets.{IsTable, index_of-in_range}

abbrev pub key_amount : HashtableKeyType → Key → Amount
key_amount HashtableKeyType.string k r = unit (block k.addr) r
key_amount HashtableKeyType.pointer k r = 0

pub free_key-Frees : (kt : HashtableKeyType) (k : Key) → Frees (key_amount kt k) (free_key kt k)
unfolding free_key
free_key-Frees HashtableKeyType.string k = free-Frees k.addr
free_key-Frees HashtableKeyType.pointer k = Frees-none

module _ {V : Type 0} (own : Option V → Amount) where
  -- The callback gives back what a value owns; without one a value owns nothing.
  pub data Destroyer : Option (Option V → M (Unit {0})) → Type 0 where
    borrowed : ((v : Option V) (r : Resource) → own v r ≡ 0) → Destroyer none
    destroys :
        {f : Option V → M (Unit {0})} → ((v : Option V) → Frees (own v) (f v)) → Destroyer (some f)

  abbrev pub entry_amount : HashtableKeyType → Entry V → Amount
  entry_amount kt e r =
      key_amount kt e.key r + (own e.value r + unit (block e.addr) r) + unit (block e.cell) r

  abbrev pub chain_amount : HashtableKeyType → List (Entry V) → Amount
  chain_amount kt [] r = 0
  chain_amount kt (e ∷ es) r = entry_amount kt e r + chain_amount kt es r

  abbrev pub buckets_amount : HashtableKeyType → List (List (Entry V)) → Amount
  buckets_amount kt [] r = 0
  buckets_amount kt (b ∷ bs) r = chain_amount kt b r + buckets_amount kt bs r

  abbrev pub table_amount : Hashtable V → Amount
  table_amount ht r =
      buckets_amount ht.key_type ht.buckets r + (unit (block ht.array) r + unit (block ht.addr) r)

  pub buckets_amount-empty :
      (kt : HashtableKeyType) (n : ℕ) (r : Resource) → buckets_amount kt (replicate n []) r ≡ 0
  buckets_amount-empty kt zero r = refl
  buckets_amount-empty kt (suc n) r = omega (arith, buckets_amount-empty kt n r)

  buckets_amount-set_bucket :
      (kt : HashtableKeyType) (i : ℕ) (b : List (Entry V)) (bs : List (List (Entry V)))
      → i < length bs
      → (r : Resource)
      → buckets_amount kt (set_bucket i b bs) r + chain_amount kt (bucket_at i bs) r
        ≡ buckets_amount kt bs r + chain_amount kt b r
  unfolding set_bucket bucket_at
  buckets_amount-set_bucket kt i b [] h r = absurd (omega arith)
  buckets_amount-set_bucket kt zero b (c ∷ bs) h r = omega arith
  buckets_amount-set_bucket kt (suc i) b (c ∷ bs) h r =
      omega (arith, buckets_amount-set_bucket kt i b bs (omega arith) r)

  pub table_amount-with_bucket :
      (ht : Hashtable V)
      → IsTable ht
      → (k : Key) (b : List (Entry V)) (r : Resource)
      → table_amount (with_bucket ht k b) r
          + chain_amount ht.key_type (bucket_at (index_of ht k) ht.buckets) r
        ≡ table_amount ht r + chain_amount ht.key_type b r
  unfolding with_bucket
  table_amount-with_bucket ht v k b r = omega (
    arith,
    buckets_amount-set_bucket ht.key_type (index_of ht k) b ht.buckets (index_of-in_range ht v k) r,
  )

  pub table_amount-push_entry :
      (ht : Hashtable V)
      → IsTable ht
      → (k : Key) (e : Entry V) (r : Resource)
      → table_amount (push_entry ht k e) r ≡ table_amount ht r + entry_amount ht.key_type e r
  unfolding push_entry
  table_amount-push_entry ht v k e r =
      omega (arith, table_amount-with_bucket ht v k (e ∷ bucket_at (index_of ht k) ht.buckets) r)

  -- A reset takes the new value in and gives the old one out.
  abbrev pub Exchanged :
      HashtableKeyType → Option V → List (Entry V) → Option (Option V × List (Entry V)) → Type 0
  Exchanged kt v es none = Unit
  Exchanged kt v es (some (old, es')) =
      (r : Resource)
      → (chain_amount kt es' r + own old r ≡ chain_amount kt es r + own v r)
        × own old r ≤ chain_amount kt es r

  reset_here-Exchanged :
      (kt : HashtableKeyType) (k : Key) (v : Option V) (e : Entry V) (es : List (Entry V))
      (o : Option (Option V × List (Entry V)))
      → Exchanged kt v es o
      → Exchanged kt v (e ∷ es) (reset_here kt k v e es o)
  unfolding reset_here
  reset_here-Exchanged kt k v e es (some (old, es')) x =
      λ r. (omega (arith, (x r).0), omega (arith, (x r).1))
  reset_here-Exchanged kt k v e es none x = elim (Bool-cases (same_key kt k e.key)) [
    | inl q ↦ rw q (λ r. (omega arith, omega arith))
    | inr q ↦ rw q tt
  ]

  pub reset_last-Exchanged :
      (kt : HashtableKeyType) (k : Key) (v : Option V) (es : List (Entry V))
      → Exchanged kt v es (reset_last kt k v es)
  unfolding reset_last
  reset_last-Exchanged kt k v [] = tt
  reset_last-Exchanged kt k v (e ∷ es) =
      reset_here-Exchanged kt k v e es (reset_last kt k v es) (reset_last-Exchanged kt k v es)

  -- An unlinked entry takes its amount out.
  abbrev pub Extracted :
      HashtableKeyType → List (Entry V) → Option (Entry V × List (Entry V)) → Type 0
  Extracted kt es none = Unit
  Extracted kt es (some (e, es')) =
      (r : Resource) → chain_amount kt es r ≡ entry_amount kt e r + chain_amount kt es' r

  unlink_here-Extracted :
      (kt : HashtableKeyType) (e : Entry V) (b : Bool) (es : List (Entry V))
      (o : Option (Entry V × List (Entry V)))
      → Extracted kt es o
      → Extracted kt (e ∷ es) (unlink_here e b es o)
  unfolding unlink_here
  unlink_here-Extracted kt e true es o x = λ r. refl
  unlink_here-Extracted kt e false es none x = tt
  unlink_here-Extracted kt e false es (some (found, rest)) x = λ r. omega (arith, x r)

  pub unlink-Extracted :
      (kt : HashtableKeyType) (k : Key) (es : List (Entry V)) → Extracted kt es (unlink kt k es)
  unfolding unlink
  unlink-Extracted kt k [] = tt
  unlink-Extracted kt k (e ∷ es) =
      unlink_here-Extracted kt e (same_key kt k e.key) es (unlink kt k es)
        (unlink-Extracted kt k es)

  pub destroy_value-Frees :
      (d : Option (Option V → M (Unit {0}))) (v : Option V)
      → Destroyer d
      → Frees (own v) (destroy_value d v)
  unfolding destroy_value
  destroy_value-Frees _ v (borrowed z) =
      Frees-cong (λ r. 0) (own v) (pure tt) (λ r. omega (arith, z v r)) Frees-none
  destroy_value-Frees _ v (destroys f) = f v

  module _ (ht : Hashtable V) (d : Destroyer ht.destroy_value_fn) where
    entry-Frees :
        (e : Entry V)
        → Frees
            (λ r. key_amount ht.key_type e.key r + (own e.value r + unit (block e.addr) r))
            (hashtable_destroy_entry ht e)
    unfolding hashtable_destroy_entry
    entry-Frees e =
        Frees-then (key_amount ht.key_type e.key) (λ r. own e.value r + unit (block e.addr) r)
          (free_key ht.key_type e.key) (destroy_value ht.destroy_value_fn e.value >> free e.addr)
          (free_key-Frees ht.key_type e.key)
          (Frees-then (own e.value) (unit (block e.addr))
            (destroy_value ht.destroy_value_fn e.value) (free e.addr)
            (destroy_value-Frees ht.destroy_value_fn e.value d) (free-Frees e.addr))

    chain-Frees : (es : List (Entry V)) → Frees (chain_amount ht.key_type es) (list_free_list ht es)
    unfolding list_free_list
    chain-Frees [] = Frees-none
    chain-Frees (e ∷ es) =
        let f =
          Frees-then (λ r. key_amount ht.key_type e.key r + (own e.value r + unit (block e.addr) r))
            (λ r. unit (block e.cell) r + chain_amount ht.key_type es r)
            (hashtable_destroy_entry ht e) (free e.cell >> list_free_list ht es) (entry-Frees e)
            (Frees-then (unit (block e.cell)) (chain_amount ht.key_type es) (free e.cell)
              (list_free_list ht es) (free-Frees e.cell) (chain-Frees es)) in
        Frees-cong _ (chain_amount ht.key_type (e ∷ es)) _ (λ r. omega arith) f

    buckets-Frees :
        (bs : List (List (Entry V))) → Frees (buckets_amount ht.key_type bs) (destroy_buckets ht bs)
    unfolding destroy_buckets
    buckets-Frees [] = Frees-none
    buckets-Frees (b ∷ bs) =
        Frees-then (chain_amount ht.key_type b) (buckets_amount ht.key_type bs)
          (list_free_list ht b) (destroy_buckets ht bs) (chain-Frees b) (buckets-Frees bs)

    pub free_unlinked-Frees :
        (e : Entry V) → Frees (entry_amount ht.key_type e) (free_unlinked ht e)
    unfolding free_unlinked
    free_unlinked-Frees e =
        let f =
          Frees-then (own e.value)
            (λ r. key_amount ht.key_type e.key r + (unit (block e.addr) r + unit (block e.cell) r))
            (destroy_value ht.destroy_value_fn e.value)
            (free_key ht.key_type e.key >> (free e.addr >> free e.cell))
            (destroy_value-Frees ht.destroy_value_fn e.value d)
            (Frees-then (key_amount ht.key_type e.key)
              (λ r. unit (block e.addr) r + unit (block e.cell) r) (free_key ht.key_type e.key)
              (free e.addr >> free e.cell) (free_key-Frees ht.key_type e.key)
              (Frees-then (unit (block e.addr)) (unit (block e.cell)) (free e.addr) (free e.cell)
                (free-Frees e.addr) (free-Frees e.cell))) in
        Frees-cong _ (entry_amount ht.key_type e) _ (λ r. omega arith) f

  -- The release of a table gives back exactly what the table owns: handle, array, cells, entries, copies
  -- of string keys, and the values if the callback gives back theirs.
  pub hashtable_destroy-Frees :
      (ht : Hashtable V)
      → Destroyer ht.destroy_value_fn
      → Frees (table_amount ht) (hashtable_destroy (some ht))
  unfolding hashtable_destroy
  hashtable_destroy-Frees ht d =
      Frees-then (buckets_amount ht.key_type ht.buckets)
        (λ r. unit (block ht.array) r + unit (block ht.addr) r) (destroy_buckets ht ht.buckets)
        (free ht.array >> free ht.addr) (buckets-Frees ht d ht.buckets)
        (Frees-then (unit (block ht.array)) (unit (block ht.addr)) (free ht.array) (free ht.addr)
          (free-Frees ht.array) (free-Frees ht.addr))

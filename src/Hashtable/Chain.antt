-- ===== src/Hashtable/Chain.antt =====
-- The chains of the hash table's buckets: which entry a search finds after an entry was pushed,
-- reset or unlinked (hashtable.c).
use lex_leo.Prelude.{
  ℕ, ◌%◌, ◌≡◌, refl, sym, ap, ◌∙◌, inl, inr, Bool, true, false, Option, none, some, List, [], ◌∷◌,
  arith, ==_refl, if◌then◌else◌, Bool-cases, text_eq, text_eq_refl, eq_of_text_eq,
}
use lex_leo.HashtableKey.{HashtableKeyType, Key, hash_djb2, djb2, same_key}
use lex_leo.Hashtable.{Entry, find_entry, reset_here, reset_last, unlink_here, unlink}

pub same_key_refl : (kt : HashtableKeyType) (k : Key) → same_key kt k k ≡ true
unfolding same_key
same_key_refl HashtableKeyType.string k = text_eq_refl k.text
same_key_refl HashtableKeyType.pointer k = ==_refl k.addr

-- Keys that compare equal compare alike with every key, and have the same hash value.
pub same_key-left :
    (kt : HashtableKeyType) (j k l : Key)
    → same_key kt j k ≡ true
    → same_key kt j l ≡ same_key kt k l
unfolding same_key
same_key-left HashtableKeyType.string j k l h =
    ap (λ t. text_eq t l.text) (eq_of_text_eq j.text k.text h)
same_key-left HashtableKeyType.pointer j k l h = ground arith

pub same_key-right :
    (kt : HashtableKeyType) (j k l : Key)
    → same_key kt j k ≡ true
    → same_key kt l j ≡ same_key kt l k
unfolding same_key
same_key-right HashtableKeyType.string j k l h =
    ap (λ t. text_eq l.text t) (eq_of_text_eq j.text k.text h)
same_key-right HashtableKeyType.pointer j k l h = ground arith

pub hash_djb2_cong :
    (kt : HashtableKeyType) (j k : Key) → same_key kt j k ≡ true → hash_djb2 j kt ≡ hash_djb2 k kt
unfolding same_key hash_djb2
hash_djb2_cong HashtableKeyType.string j k h = ap (djb2 5381) (eq_of_text_eq j.text k.text h)
hash_djb2_cong HashtableKeyType.pointer j k h = ground arith

pub same_key_sym :
    (kt : HashtableKeyType) (j k : Key) → same_key kt j k ≡ true → same_key kt k j ≡ true
same_key_sym kt j k h = sym (same_key-left kt j k j h) ∙ same_key_refl kt j

pub differs-sym :
    (kt : HashtableKeyType) (j k : Key) → same_key kt j k ≡ false → same_key kt k j ≡ false
differs-sym kt j k h = elim (Bool-cases (same_key kt k j)) [
  | inl q ↦ let r = same_key_sym kt k j q in absurd (cc)
  | inr q ↦ q
]

module _ {V : Type 0} (kt : HashtableKeyType) where
  pub find_entry_cong :
      (j k : Key) (es : List (Entry V))
      → same_key kt j k ≡ true
      → find_entry kt j es ≡ find_entry kt k es
  unfolding find_entry
  find_entry_cong j k [] h = refl
  find_entry_cong j k (e ∷ es) h = rw (same_key-left kt j k e.key h, find_entry_cong j k es h)

  -- What is found has the key.
  pub find_entry-key :
      (k : Key) (es : List (Entry V)) (e : Entry V)
      → find_entry kt k es ≡ some e
      → same_key kt k e.key ≡ true
  unfolding find_entry
  find_entry-key k [] e h = absurd (cc)
  find_entry-key k (x ∷ es) e h = elim (Bool-cases (same_key kt k x.key)) [
    | inl q ↦ ground (arith, q)
    | inr q ↦ find_entry-key k es e (ground (arith, q))
  ]

  -- The entries of bucket `i` of a table of `size` buckets: they hash there, and no two have the
  -- same key.
  abbrev pub Chain : (size i : ℕ) → List (Entry V) → Type 0
  Chain size i [] = Unit
  Chain size i (e ∷ es) =
      (hash_djb2 e.key kt % size ≡ i) × (find_entry kt e.key es ≡ none) × Chain size i es

  -- A reset keeps the keys, so that it changes only what is found at its own.
  pub data Reset (size i : ℕ) (k : Key) (v : Option V) (es : List (Entry V))
      : Option (Option V × List (Entry V)) → Type 0 where
    missing : find_entry kt k es ≡ none → Reset size i k v es none
    assigned :
        {es' : List (Entry V)} {x : Entry V}
        → find_entry kt k es ≡ some x
        → Chain size i es'
        → ((j : Key)
            → find_entry kt j es'
              ≡ (if same_key kt j k then some (record x { value = v }) else find_entry kt j es))
        → Reset size i k v es (some (x.value, es'))

  -- An entry in front of a chain that holds the key does not have it.
  front-differs :
      (k : Key) (e x : Entry V) (es : List (Entry V))
      → find_entry kt e.key es ≡ none
      → find_entry kt k es ≡ some x
      → same_key kt k e.key ≡ false
  front-differs k e x es h f = elim (Bool-cases (same_key kt k e.key)) [
    | inl q ↦ let g = find_entry_cong k e.key es q in absurd (cc)
    | inr q ↦ q
  ]

  reset_here_lem :
      (size i : ℕ) (k : Key) (v : Option V) (e : Entry V) (es : List (Entry V))
      (o : Option (Option V × List (Entry V)))
      → Chain size i (e ∷ es)
      → Reset size i k v es o
      → Reset size i k v (e ∷ es) (reset_here kt k v e es o)
  unfolding reset_here find_entry
  reset_here_lem size i k v e es _ (a, n, c) (missing m) = elim (Bool-cases (same_key kt k e.key)) [
    | inl q ↦ rw q (
        assigned {x = e} (rw q) (a, n, c)
          λ j.
            rw (same_key-right kt k e.key j q)
              (elim (Bool-cases (same_key kt j e.key)) [ inl r ↦ rw r | inr r ↦ rw r ]))
    | inr q ↦ rw q (missing (rw q m))
  ]
  reset_here_lem size i k v e es _ (a, n, c) (assigned {es'} {x} f c' g) =
      let q = front-differs k e x es n f in
      assigned {x = x} (rw q f) (a, rw (g e.key, differs-sym kt k e.key q) n, c')
        λ j. elim (Bool-cases (same_key kt j e.key)) [
          | inl r ↦ rw (r, same_key-left kt j e.key k r, differs-sym kt k e.key q)
          | inr r ↦ rw r (g j)
        ]

  pub reset_last_lem :
      (size i : ℕ) (k : Key) (v : Option V) (es : List (Entry V))
      → Chain size i es
      → Reset size i k v es (reset_last kt k v es)
  unfolding reset_last find_entry
  reset_last_lem size i k v [] c = missing refl
  reset_last_lem size i k v (e ∷ es) (a, n, c) =
      reset_here_lem size i k v e es (reset_last kt k v es) (a, n, c)
        (reset_last_lem size i k v es c)

  -- What unlinking does: it takes out the entry that a search finds, and nothing else.
  pub data Unlinked (size i : ℕ) (k : Key) (es : List (Entry V))
      : Option (Entry V × List (Entry V)) → Type 0 where
    missing : find_entry kt k es ≡ none → Unlinked size i k es none
    removed :
        {es' : List (Entry V)} {x : Entry V}
        → find_entry kt k es ≡ some x
        → Chain size i es'
        → ((j : Key) → find_entry kt j es' ≡ (if same_key kt j k then none else find_entry kt j es))
        → Unlinked size i k es (some (x, es'))

  unlink_here_lem :
      (size i : ℕ) (k : Key) (e : Entry V) (es : List (Entry V))
      (o : Option (Entry V × List (Entry V)))
      → Chain size i (e ∷ es)
      → Unlinked size i k es o
      → (b : Bool) → same_key kt k e.key ≡ b
      → Unlinked size i k (e ∷ es) (unlink_here e b es o)
  unfolding unlink_here find_entry
  unlink_here_lem size i k e es o (a, n, c) u true q = removed {x = e} (rw q) c λ j.
      rw (same_key-right kt k e.key j q) (elim (Bool-cases (same_key kt j e.key)) [
        | inl r ↦ rw (r, find_entry_cong j e.key es r) n
        | inr r ↦ rw r
      ])
  unlink_here_lem size i k e es _ (a, n, c) (missing m) false q = missing (rw q m)
  unlink_here_lem size i k e es _ (a, n, c) (removed {es'} {x} f c' g) false q =
      removed {x = x} (rw q f) (a, rw (g e.key, differs-sym kt k e.key q) n, c')
        λ j. elim (Bool-cases (same_key kt j e.key)) [
          | inl r ↦ rw (r, same_key-left kt j e.key k r, differs-sym kt k e.key q)
          | inr r ↦ rw r (g j)
        ]

  pub unlink_lem :
      (size i : ℕ) (k : Key) (es : List (Entry V))
      → Chain size i es
      → Unlinked size i k es (unlink kt k es)
  unfolding unlink find_entry
  unlink_lem size i k [] c = missing refl
  unlink_lem size i k (e ∷ es) (a, n, c) =
      unlink_here_lem size i k e es (unlink kt k es) (a, n, c) (unlink_lem size i k es c)
        (same_key kt k e.key) refl

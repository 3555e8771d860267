-- ===== src/HashtableKey.antt =====
-- The keys of the hash table: their type, their hash value, their comparison, and their copies
-- (hashtable.c and hashtable.h of src/legacy/foundation_legacy/data_structures).
use lex_leo.Prelude.{ℕ, ◌+◌, ◌*◌, ◌%◌, ◌^◌, Bool, Option, none, some, List, [], ◌∷◌, ◌==◌, text_eq}
use lex_leo.Memory.{M, pure, ◌>>=◌, calloc, free}

pub data HashtableKeyType : Type 0 where
  string pointer : HashtableKeyType

-- A `void *` key: its address, and the text that stands there if it is a string.
pub record Key : Type 0 where
  pub addr : ℕ
  pub text : List ℕ

-- The loop of `hash_djb2`; `unsigned long` has 64 bits.
unfoldable pub djb2 : (hash : ℕ) → List ℕ → ℕ
djb2 hash [] = hash
djb2 hash (c ∷ str) = djb2 ((hash * 2 ^ 5 + hash + c) % 2 ^ 64) str

unfoldable pub hash_djb2 : Key → HashtableKeyType → ℕ
unfolding djb2
hash_djb2 key HashtableKeyType.string = djb2 5381 key.text
hash_djb2 key HashtableKeyType.pointer = key.addr

-- The comparison of keys: `strcmp(key, other) == 0`, or `key == other`.
unfoldable pub same_key : HashtableKeyType → (key other : Key) → Bool
same_key HashtableKeyType.string key other = text_eq key.text other.text
same_key HashtableKeyType.pointer key other = key.addr == other.addr

unfoldable pub key_copied : Key → Option ℕ → M (Option Key)
key_copied key none = pure none
key_copied key (some p) = pure (some (record { addr = p; text = key.text }))

-- The copy of a string key, or the pointer itself.
unfoldable pub duplicate_key : HashtableKeyType → Key → M (Option Key)
unfolding key_copied
duplicate_key HashtableKeyType.pointer key = pure (some key)
duplicate_key HashtableKeyType.string key = calloc >>= key_copied key

unfoldable pub free_key : HashtableKeyType → Key → M (Unit {0})
free_key HashtableKeyType.string key = free key.addr
free_key HashtableKeyType.pointer key = pure tt

-- ===== src/StreamFactory/Registry.antt =====
-- The registry as a finite map from adapter identifiers to providers: stream_factory_add_adapter and
-- stream_factory_get_adapter_provider (stream_cr.c, stream_owner.c).
use lex_leo.Prelude.{
  ℕ, ◌+◌, ◌≤◌, ◌<◌, ◌≡◌, refl, inl, inr, true, false, ◌||◌, none, some, List, [], ◌∷◌, ◌++◌, arith,
  leb, if◌then◌else◌, length, length-append, text_eq, text_eq_refl, eq_of_text_eq, Bool-cases,
}
use lex_leo.Status.{StreamFactoryStatus}
use lex_leo.Memory.{World, done}
use lex_leo.StreamFactory.{
  Entry, StreamAdapterProvider, StreamFactory, contains_id, valid_id, add_checked,
  stream_factory_add_adapter, find_entry, stream_factory_get_adapter_provider,
}

text_eq_sym : (s t : List ℕ) → text_eq s t ≡ text_eq t s
text_eq_sym [] [] = refl
text_eq_sym [] (b ∷ t) = refl
text_eq_sym (a ∷ s) [] = refl
text_eq_sym (a ∷ s) (b ∷ t) = ground (arith, text_eq_sym s t)

find-eq_none : (id : List ℕ) (es : List Entry) → contains_id es id ≡ false → find_entry id es ≡ none
unfolding contains_id find_entry
find-eq_none id [] h = refl
find-eq_none id ((key, p) ∷ es) h = ground (arith, text_eq_sym key id, find-eq_none id es)

find-eq_some :
    (id : List ℕ) (es : List Entry)
    → contains_id es id ≡ true
    → (p : StreamAdapterProvider) × (find_entry id es ≡ some p)
unfolding contains_id find_entry
find-eq_some id [] h = absurd (cc)
find-eq_some id ((key, p) ∷ es) h = elim (Bool-cases (text_eq id key)) [
  | inl e ↦ (p, rw e)
  | inr e ↦ let (q, f) = find-eq_some id es (ground (arith, text_eq_sym key id)) in (q, rw e f)
]

find-append :
    (id key : List ℕ) (p : StreamAdapterProvider) (es : List Entry)
    → contains_id es key ≡ false
    → find_entry id (es ++ (key, p) ∷ []) ≡ (if text_eq id key then some p else find_entry id es)
unfolding find_entry contains_id
find-append id key p [] h = refl
find-append id key p ((k, q) ∷ es) h = elim (Bool-cases (text_eq id k)) [
  | inr e ↦ rw e (find-append id key p es (ground arith))
  | inl e ↦ elim (Bool-cases (text_eq id key)) [
    | inr e' ↦ rw (e, e')
    | inl e' ↦
        let same : text_eq k key ≡ true =
          rw (← eq_of_text_eq id k e, ← eq_of_text_eq id key e') (text_eq_refl id) in
        absurd (ground arith)
  ]
]

-- No two entries have the same identifier.
abbrev pub Distinct : List Entry → Type 0
Distinct [] = Unit
Distinct ((key, p) ∷ es) = (contains_id es key ≡ false) × Distinct es

contains-append :
    (es : List Entry) (key id : List ℕ) (p : StreamAdapterProvider)
    → contains_id (es ++ (key, p) ∷ []) id ≡ (contains_id es id || text_eq key id)
unfolding contains_id
contains-append [] key id p = ground arith
contains-append ((k, q) ∷ es) key id p = ground (arith, contains-append es key id p)

Distinct-append :
    (es : List Entry) (key : List ℕ) (p : StreamAdapterProvider)
    → Distinct es
    → contains_id es key ≡ false
    → Distinct (es ++ (key, p) ∷ [])
unfolding contains_id
Distinct-append [] key p d h = (refl, tt)
Distinct-append ((k, q) ∷ es) key p d h = (
  ground (arith, contains-append es key k p, text_eq_sym k key),
  Distinct-append es key p d.1 (ground arith),
)

pub record IsRegistry (f : StreamFactory) : Type 0 where
  pub bounded : length f.entries ≤ f.cap
  pub distinct : Distinct f.entries

-- What a registration does: it extends the map at a new identifier, or reports that the registry is
-- full, or that the identifier is taken, and changes nothing.
pub data AddOutcome (f : StreamFactory) (id : List ℕ) (p : StreamAdapterProvider)
    : StreamFactoryStatus → StreamFactory → Type 0 where
  added :
      {f' : StreamFactory}
      → length f.entries < f.cap
      → IsRegistry f'
      → f'.cap ≡ f.cap
      → length f'.entries ≡ length f.entries + 1
      → ((j : List ℕ)
          → stream_factory_get_adapter_provider f' j
            ≡ (if text_eq j id then some p else stream_factory_get_adapter_provider f j))
      → AddOutcome f id p StreamFactoryStatus.ok f'
  full : length f.entries ≡ f.cap → AddOutcome f id p StreamFactoryStatus.full f
  taken :
      length f.entries < f.cap
      → (q : StreamAdapterProvider) → stream_factory_get_adapter_provider f id ≡ some q
      → AddOutcome f id p StreamFactoryStatus.already_exists f

add_checked_lem :
    (f : StreamFactory) (id : List ℕ) (p : StreamAdapterProvider)
    → IsRegistry f
    → AddOutcome f id p (add_checked f id p).0 (add_checked f id p).1
unfolding add_checked stream_factory_get_adapter_provider
add_checked_lem f id p v = elim (Bool-cases (leb f.cap (length f.entries))) [
  | inl e ↦ rw e (full (ground arith))
  | inr e ↦ elim (Bool-cases (contains_id f.entries id)) [
    | inl c ↦ let (q, g) = find-eq_some id f.entries c in rw (e, c) (taken (ground arith) q g)
    | inr c ↦
        rw (e, c)
          (added (ground arith)
            (record {
              bounded = rw length-append (ground arith);
              distinct = Distinct-append f.entries id p v.distinct c;
            })
            refl (rw length-append (omega arith)) (λ j. find-append j id p f.entries c))
  ]
]

-- Registration of a valid identifier in a registry without duplicates never aborts and does one of
-- the three things of `AddOutcome`; success makes exactly the new identifier map to the new
-- provider.
pub stream_factory_add_adapter-AddOutcome :
    (f : StreamFactory) (id : List ℕ) (p : StreamAdapterProvider) (w : World)
    → valid_id id ≡ true
    → IsRegistry f
    → (st : StreamFactoryStatus) × (f' : StreamFactory) × (stream_factory_add_adapter f id p w
        ≡ done (st, f') w)
      × AddOutcome f id p st f'
unfolding stream_factory_add_adapter
stream_factory_add_adapter-AddOutcome f id p w ok v =
    ((add_checked f id p).0, (add_checked f id p).1, rw ok, add_checked_lem f id p v)

-- Registration of a new identifier where there is room, with the factory that it yields.
pub add_adapter_new :
    (f : StreamFactory) (id : List ℕ) (p : StreamAdapterProvider) (w : World)
    → valid_id id ≡ true
    → leb f.cap (length f.entries) ≡ false
    → contains_id f.entries id ≡ false
    → stream_factory_add_adapter f id p w
      ≡ done (StreamFactoryStatus.ok, record f { entries = f.entries ++ (id, p) ∷ [] }) w
unfolding stream_factory_add_adapter add_checked
add_adapter_new f id p w ok room new = rw (ok, room, new)

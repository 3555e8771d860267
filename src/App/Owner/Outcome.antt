-- ===== src/App/Owner/Outcome.antt =====
-- The outcomes of lexleo_app_init_stream_owner_opaque, and what its cleanups give back.
use lex_leo.Prelude.{ℕ, ◌+◌, ◌≤◌, ◌≡◌, refl, Option, none, some, List, arith, codes}
use lex_leo.Memory.{Resource, World, M, ◌>>◌, pure}
use lex_leo.Memory.Balance.{Returns, returns, bind, weaken, count, Balanced}
use lex_leo.Memory.Release.{Amount, amount, Frees}
use lex_leo.StreamFactory.{
  BackendCtor, dynamic_buffer_ctor, fs_ctor, stdio_ctor, StreamAdapterProvider, StreamFactory,
  stream_factory_get_adapter_provider, stream_destroy_factory,
}
use lex_leo.StreamFactory.Ownership.{own_factory}
use lex_leo.StreamCreator.{
  StreamCreator, stream_destroy_standard_stream_creator, stream_destroy_regular_file_creator,
}
use lex_leo.StreamCreator.Ownership.{own_creator}
use lex_leo.App.{LexleoAppStreamOwner}
use lex_leo.App.Release.{
  destroy_standard_creator-Frees, destroy_file_creator-Frees, destroy_factory-Frees,
}
use lex_leo.App.Owner.{Owners}

abbrev pub owner_amount : LexleoAppStreamOwner → Amount
owner_amount o r =
    amount own_creator o.standard_stream_creator r
    + (amount own_creator o.regular_file_creator r
        + (amount own_creator o.dynamic_buffer_creator r + amount own_factory o.stream_factory r))

-- The factory has a provider with that constructor under that identifier.
abbrev pub Provides : StreamFactory → List ℕ → BackendCtor → Type 0
Provides f id ctor =
    (p : StreamAdapterProvider) × (stream_factory_get_adapter_provider f id ≡ some p)
    × (p.backend_ctor ≡ ctor)

-- A creator that asks for that identifier.
abbrev pub AsksFor : List ℕ → Option StreamCreator → Type 0
AsksFor id o = (c : StreamCreator) × (o ≡ some c) × (c.adapter_id ≡ id)

-- Each creator asks for an identifier under which the factory provides its kind of stream.
pub record Composed (o : LexleoAppStreamOwner) : Type 0 where
  pub factory : StreamFactory
  pub has_factory : o.stream_factory ≡ some factory
  pub standard_provider : Provides factory (codes "stdio") stdio_ctor
  pub file_provider : Provides factory (codes "fs") fs_ctor
  pub buffer_provider : Provides factory (codes "dbs") (dynamic_buffer_ctor 256)
  pub standard_creator : AsksFor (codes "stdio") o.standard_stream_creator
  pub file_creator : AsksFor (codes "fs") o.regular_file_creator
  pub buffer_creator : AsksFor (codes "dbs") o.dynamic_buffer_creator

-- A composed owner with exactly what was taken for it, in the same block, or none and nothing held.
pub data OwnerMade (addr : ℕ) (w : World) : Owners → World → Type 0 where
  owner_made :
      {o : LexleoAppStreamOwner} {w' : World}
      → Composed o
      → o.addr ≡ addr
      → ((r : Resource) → w'.live r ≡ w.live r + owner_amount o r)
      → OwnerMade addr w (some o) w'
  no_owner : {w' : World} → Balanced w w' → OwnerMade addr w none w'

-- The run gives the amount back and reports failure.
abbrev pub Undoes : Amount → M Owners → Type 0
Undoes a m =
    (w : World)
    → ((r : Resource) → a r ≤ w.live r)
    → Returns (λ o w'. (o ≡ none) × ((r : Resource) → w'.live r + a r ≡ w.live r)) (m w)

undo_end : Undoes (λ r. 0) (pure none)
undo_end w h = returns (refl, λ r. omega arith)

undo_then :
    (a b : Amount) (m : M (Unit {0})) (k : M Owners)
    → Frees a m
    → Undoes b k
    → Undoes (λ r. a r + b r) (m >> k)
undo_then a b m k first rest w h = bind (first w (λ r. omega (arith, h r))) λ _ w₁ d₁.
    weaken (rest w₁ (λ r. omega (arith, h r, d₁ r)))
      λ o w₂ (e, d₂). (e, λ r. omega (arith, d₁ r, d₂ r))

pub undone :
    (addr : ℕ) (w : World) (a : Amount) (m : M Owners)
    → Undoes a m
    → (w₁ : World) → ((r : Resource) → w₁.live r ≡ w.live r + a r)
    → Returns (OwnerMade addr w) (m w₁)
undone addr w a m undo w₁ h = weaken (undo w₁ (λ r. omega (arith, h r))) λ o w₂ d. go o w₂ d.0 d.1
  where
    go :
        (o : Owners) (w₂ : World)
        → o ≡ none
        → ((r : Resource) → w₂.live r + a r ≡ w₁.live r)
        → OwnerMade addr w o w₂
    go none w₂ e d = no_owner (λ r. omega (arith, h r, d r))
    go (some o) w₂ e d = absurd (cc)

pub undo_factory :
    (f : StreamFactory)
    → Undoes (λ r. count r (own_factory f) + 0) (do stream_destroy_factory (some f); pure none)
undo_factory f = undo_then _ _ _ _ (destroy_factory-Frees (some f)) undo_end

pub undo_standard :
    (std : StreamCreator) (f : StreamFactory)
    → Undoes
        (λ r. count r (own_creator std) + (count r (own_factory f) + 0))
        (do
          stream_destroy_standard_stream_creator (some std)
          stream_destroy_factory (some f)
          pure none)
undo_standard std f = undo_then _ _ _ _ (destroy_standard_creator-Frees (some std)) (undo_factory f)

pub undo_both :
    (std file : StreamCreator) (f : StreamFactory)
    → Undoes
        (λ r.
          count r (own_creator std) + (count r (own_creator file) + (count r (own_factory f) + 0)))
        (do
          stream_destroy_standard_stream_creator (some std)
          stream_destroy_regular_file_creator (some file)
          stream_destroy_factory (some f)
          pure none)
undo_both std file f =
    undo_then _ _ _ _ (destroy_standard_creator-Frees (some std))
      (undo_then _ _ _ _ (destroy_file_creator-Frees (some file)) (undo_factory f))

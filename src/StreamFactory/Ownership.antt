-- ===== src/StreamFactory/Ownership.antt =====
-- What the construction and destruction of factories and providers do to the heap (stream_cr.c and
-- the create_adapter_provider functions of the adapters).
use lex_leo.Prelude.{ℕ, ◌<◌, ◌≡◌, refl, Option, some, List, [], ◌∷◌, ◌++◌, arith, lt→ltb}
use lex_leo.Status.{StreamFactoryStatus}
use lex_leo.Memory.{Resource, World, block}
use lex_leo.Memory.Balance.{
  Returns, returns, bind, weaken, Delta, Holds, count-append, built, failed, Builds, Allocated,
  fresh, exhausted, calloc-Allocated, free-held,
}
use lex_leo.StreamFactory.{
  Entry, StreamAdapterProvider, StreamFactory, allocated_entries, allocated_ud, allocated_factory,
  stream_create_factory, stream_destroy_adapter_provider, destroy_entries, stream_destroy_factory,
}

abbrev pub own_provider : StreamAdapterProvider → List Resource
own_provider p = block p.ud ∷ block p.addr ∷ []

abbrev pub own_entries : List Entry → List Resource
own_entries [] = []
own_entries ((_, p) ∷ es) = own_provider p ++ own_entries es

abbrev pub own_factory : StreamFactory → List Resource
own_factory f = own_entries f.entries ++ (block f.reg_entries ∷ block f.ctor_ud ∷ block f.addr ∷ [])

pub destroy_adapter_provider-Delta :
    (p : StreamAdapterProvider) (w : World)
    → Holds (own_provider p) w
    → Returns (λ _ w'. Delta [] (own_provider p) w w') (stream_destroy_adapter_provider p w)
unfolding stream_destroy_adapter_provider
destroy_adapter_provider-Delta p w h =
    bind (free-held p.ud (block p.addr ∷ []) w h) λ _ w₁ (d₁, h₁).
      weaken (free-held p.addr [] w₁ h₁) λ _ w₂ (d₂, _) r. omega (arith, d₁ r, d₂ r)

destroy_entries-Delta :
    (es : List Entry) (w : World)
    → Holds (own_entries es) w
    → Returns (λ _ w'. Delta [] (own_entries es) w w') (destroy_entries es w)
unfolding destroy_entries
destroy_entries-Delta [] w h = returns (λ r. refl)
destroy_entries-Delta ((key, p) ∷ es) w h =
    bind (destroy_adapter_provider-Delta p w (λ r. omega (arith, h r))) λ _ w₁ d₁.
      weaken (destroy_entries-Delta es w₁ (λ r. omega (arith, h r, d₁ r)))
        λ _ w₂ d₂ r. omega (arith, d₁ r, d₂ r)

-- Destroying a factory that owns its blocks never aborts, and gives back exactly the factory, its
-- registry array and every registered provider with its user data.
pub stream_destroy_factory-Delta :
    (f : StreamFactory) (w : World)
    → Holds (own_factory f) w
    → Returns (λ _ w'. Delta [] (own_factory f) w w') (stream_destroy_factory (some f) w)
unfolding stream_destroy_factory
stream_destroy_factory-Delta f w h =
    let rest = block f.reg_entries ∷ block f.ctor_ud ∷ block f.addr ∷ [] in
    let split = λ (r : Resource). count-append r (own_entries f.entries) rest in
    bind (destroy_entries-Delta f.entries w (λ r. omega (arith, h r, split r))) λ _ w₁ d₁.
      bind
        (free-held f.reg_entries (block f.ctor_ud ∷ block f.addr ∷ []) w₁
          (λ r. omega (arith, h r, split r, d₁ r)))
        λ _ w₂ (d₂, h₂). bind (free-held f.ctor_ud (block f.addr ∷ []) w₂ h₂) λ _ w₃ (d₃, h₃).
          weaken (free-held f.addr [] w₃ h₃)
            λ _ w₄ (d₄, h₄) r. omega (arith, split r, d₁ r, d₂ r, d₃ r, d₄ r)

-- A new factory has an empty registry of the configured capacity.
pub record Empty (fact_cap : ℕ) (f : StreamFactory) : Type 0 where
  pub entries : f.entries ≡ []
  pub cap : f.cap ≡ fact_cap

module _ (fact_cap : ℕ) (w : World) where
  abbrev Factory : StreamFactoryStatus × Option StreamFactory → World → Type 0
  Factory = Builds StreamFactoryStatus.ok own_factory (Empty fact_cap) w

  allocated_entries-Builds :
      (tmp ud : ℕ) (w₁ : World)
      → Delta (block ud ∷ block tmp ∷ []) [] w w₁
      → {o : Option ℕ} {w₂ : World} → Allocated w₁ o w₂
      → Returns Factory (allocated_entries fact_cap tmp ud o w₂)
  unfolding allocated_entries
  allocated_entries-Builds tmp ud w₁ d (fresh p e) =
      returns (built (record { entries = refl; cap = refl }) (λ r. omega (arith, d r, e r)))
  allocated_entries-Builds tmp ud w₁ d (exhausted {w' = w₂} b) =
      bind (free-held ud (block tmp ∷ []) w₂ (λ r. omega (arith, d r, b r))) λ _ w₃ (d₃, h₃).
        bind (free-held tmp [] w₃ h₃)
          λ _ w₄ (d₄, _). returns (failed (cc) (λ r. omega (arith, d r, b r, d₃ r, d₄ r)))

  allocated_ud-Builds :
      (tmp : ℕ) (w₁ : World)
      → Delta (block tmp ∷ []) [] w w₁
      → {o : Option ℕ} {w₂ : World} → Allocated w₁ o w₂
      → Returns Factory (allocated_ud fact_cap tmp o w₂)
  unfolding allocated_ud
  allocated_ud-Builds tmp w₁ d (fresh p {w' = w₂} e) =
      bind (calloc-Allocated w₂)
        λ o w₃ a. allocated_entries-Builds tmp p w₂ (λ r. omega (arith, d r, e r)) a
  allocated_ud-Builds tmp w₁ d (exhausted {w' = w₂} b) =
      bind (free-held tmp [] w₂ (λ r. omega (arith, d r, b r)))
        λ _ w₃ (d₃, _). returns (failed (cc) (λ r. omega (arith, d r, b r, d₃ r)))

  allocated_factory-Builds :
      {o : Option ℕ} {w₁ : World}
      → Allocated w o w₁
      → Returns Factory (allocated_factory fact_cap o w₁)
  unfolding allocated_factory
  allocated_factory-Builds (fresh p {w' = w₁} d) =
      bind (calloc-Allocated w₁) λ o w₂ a. allocated_ud-Builds p w₁ d a
  allocated_factory-Builds (exhausted b) = returns (failed (cc) b)

  -- For a positive capacity `stream_create_factory` never aborts: it yields an empty factory that
  -- owns its three new blocks, or reports OOM with every block it took given back, whichever of the
  -- three allocations failed.
  pub stream_create_factory-Builds :
      0 < fact_cap
      → Returns
          (Builds StreamFactoryStatus.ok own_factory (Empty fact_cap) w)
          (stream_create_factory fact_cap w)
  unfolding stream_create_factory
  stream_create_factory-Builds pos =
      rw (lt→ltb _ _ pos) (bind (calloc-Allocated w) λ o w₁ a. allocated_factory-Builds a)

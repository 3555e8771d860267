-- ===== src/StreamFactory/Provider/Ownership.antt =====
-- What the construction of adapter providers does to the heap (the create_adapter_provider functions
-- of the adapters).
use lex_leo.Prelude.{ℕ, ◌<◌, ◌≡◌, ◌≢◌, refl, Option, none, some, [], ◌∷◌, arith, lt→ltb}
use lex_leo.Status.{DynamicBufferStreamStatus, FsStreamStatus, StdioStreamStatus}
use lex_leo.Memory.{World, block}
use lex_leo.Memory.Balance.{
  Returns, returns, bind, Delta, Balanced, built, failed, Builds, Allocated, fresh, exhausted,
  calloc-Allocated, free-held,
}
use lex_leo.StreamFactory.{
  BackendCtor, dynamic_buffer_ctor, fs_ctor, stdio_ctor, StreamAdapterProvider,
}
use lex_leo.StreamFactory.Ownership.{own_provider}
use lex_leo.StreamFactory.Provider.{
  allocated_provider, provider_with, provider_status, dynamic_buffer_stream_create_adapter_provider,
  fs_stream_create_adapter_provider, stdio_stream_create_adapter_provider,
}

-- A provider, or nothing and nothing leaked.
pub data Provided (ctor : BackendCtor) (w : World)
    : Option StreamAdapterProvider → World → Type 0 where
  provided :
      {p : StreamAdapterProvider} {w' : World}
      → p.backend_ctor ≡ ctor
      → Delta (own_provider p) [] w w'
      → Provided ctor w (some p) w'
  not_provided : {w' : World} → Balanced w w' → Provided ctor w none w'

module _ (ctor : BackendCtor) (w : World) where
  allocated_provider-Provided :
      (ud : ℕ) (w₁ : World)
      → Delta (block ud ∷ []) [] w w₁
      → {o : Option ℕ} {w₂ : World} → Allocated w₁ o w₂
      → Returns (Provided ctor w) (allocated_provider ud ctor o w₂)
  unfolding allocated_provider
  allocated_provider-Provided ud w₁ d (fresh p e) =
      returns (provided refl (λ r. omega (arith, d r, e r)))
  allocated_provider-Provided ud w₁ d (exhausted {w' = w₂} b) =
      bind (free-held ud [] w₂ (λ r. omega (arith, d r, b r)))
        λ _ w₃ (d₃, _). returns (not_provided (λ r. omega (arith, d r, b r, d₃ r)))

  provider_with-Provided :
      {o : Option ℕ} {w₁ : World}
      → Allocated w o w₁
      → Returns (Provided ctor w) (provider_with ctor o w₁)
  unfolding provider_with
  provider_with-Provided (fresh p {w' = w₁} d) =
      bind (calloc-Allocated w₁) λ o w₂ a. allocated_provider-Provided p w₁ d a
  provider_with-Provided (exhausted b) = returns (not_provided b)

  provider_status-Builds :
      {S : Type 0} (good bad : S)
      → bad ≢ good
      → {o : Option StreamAdapterProvider} {w₁ : World} → Provided ctor w o w₁
      → Returns
          (Builds good own_provider (λ p. p.backend_ctor ≡ ctor) w)
          (provider_status good bad o w₁)
  unfolding provider_status
  provider_status-Builds good bad ne (provided e d) = returns (built e d)
  provider_status-Builds good bad ne (not_provided b) = returns (failed ne b)

-- For a positive capacity, the provider of dynamic buffers is created without an abort: on OK it
-- binds their constructor with that capacity and owns two new blocks, and on OOM nothing is held.
pub dynamic_buffer_stream_create_adapter_provider-Builds :
    (default_cap : ℕ) (w : World)
    → 0 < default_cap
    → Returns
        (Builds DynamicBufferStreamStatus.ok own_provider
          (λ p. p.backend_ctor ≡ dynamic_buffer_ctor default_cap)
          w)
        (dynamic_buffer_stream_create_adapter_provider default_cap w)
unfolding dynamic_buffer_stream_create_adapter_provider
dynamic_buffer_stream_create_adapter_provider-Builds cap w pos = rw (lt→ltb _ _ pos) (
    bind (calloc-Allocated w) λ o w₁ a.
      bind (provider_with-Provided (dynamic_buffer_ctor cap) w a) λ o' w₂ b.
        provider_status-Builds (dynamic_buffer_ctor cap) w DynamicBufferStreamStatus.ok
          DynamicBufferStreamStatus.oom (cc) b)

-- The provider of file backends is created without an abort: on OK it binds their constructor and
-- owns two new blocks, and on OOM nothing is held.
pub fs_stream_create_adapter_provider-Builds :
    (w : World)
    → Returns
        (Builds FsStreamStatus.ok own_provider (λ p. p.backend_ctor ≡ fs_ctor) w)
        (fs_stream_create_adapter_provider w)
unfolding fs_stream_create_adapter_provider
fs_stream_create_adapter_provider-Builds w = bind (calloc-Allocated w) λ o w₁ a.
    bind (provider_with-Provided fs_ctor w a)
      λ o' w₂ b. provider_status-Builds fs_ctor w FsStreamStatus.ok FsStreamStatus.oom (cc) b

-- The provider of standard streams is created without an abort: on OK it binds their constructor and
-- owns two new blocks, and on OOM nothing is held.
pub stdio_stream_create_adapter_provider-Builds :
    (w : World)
    → Returns
        (Builds StdioStreamStatus.ok own_provider (λ p. p.backend_ctor ≡ stdio_ctor) w)
        (stdio_stream_create_adapter_provider w)
unfolding stdio_stream_create_adapter_provider
stdio_stream_create_adapter_provider-Builds w = bind (calloc-Allocated w) λ o w₁ a.
    bind (provider_with-Provided stdio_ctor w a) λ o' w₂ b.
      provider_status-Builds stdio_ctor w StdioStreamStatus.ok StdioStreamStatus.oom (cc) b

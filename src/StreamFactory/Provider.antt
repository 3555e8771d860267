-- ===== src/StreamFactory/Provider.antt =====
-- The adapter providers that the three adapters hand to a factory
-- (the create_adapter_provider functions of dynamic_buffer_stream_cr.c, fs_stream_cr.c and
-- stdio_stream_cr.c).
pub mod Ownership
use lex_leo.Prelude.{ℕ, Option, none, some, ltb}
use lex_leo.Status.{DynamicBufferStreamStatus, FsStreamStatus, StdioStreamStatus}
use lex_leo.Memory.{M, pure, ◌>>=◌, ◌>>◌, assert, calloc, free}
use lex_leo.StreamFactory.{
  BackendCtor, dynamic_buffer_ctor, fs_ctor, stdio_ctor, StreamAdapterProvider,
}

-- The allocations of a provider: the user data, then the provider.
allocated_provider : ℕ → BackendCtor → Option ℕ → M (Option StreamAdapterProvider)
allocated_provider ud ctor none = do free ud; pure none
allocated_provider ud ctor (some p) =
    pure (some (record { addr = p; ud = ud; backend_ctor = ctor }))

provider_with : BackendCtor → Option ℕ → M (Option StreamAdapterProvider)
unfolding allocated_provider
provider_with ctor none = pure none
provider_with ctor (some ud) = calloc >>= allocated_provider ud ctor

provider_status :
    {S : Type 0} → S → S → Option StreamAdapterProvider → M (S × Option StreamAdapterProvider)
provider_status good bad none = pure (bad, none)
provider_status good bad (some p) = pure (good, some p)

unfoldable pub dynamic_buffer_stream_create_adapter_provider :
    (default_cap : ℕ) → M (DynamicBufferStreamStatus × Option StreamAdapterProvider)
unfolding provider_with provider_status
dynamic_buffer_stream_create_adapter_provider default_cap = do
  assert (ltb 0 default_cap)
  ud ← calloc
  p ← provider_with (dynamic_buffer_ctor default_cap) ud
  provider_status DynamicBufferStreamStatus.ok DynamicBufferStreamStatus.oom p

unfoldable pub fs_stream_create_adapter_provider : M (FsStreamStatus × Option StreamAdapterProvider)
unfolding provider_with provider_status
fs_stream_create_adapter_provider = do
  ud ← calloc
  p ← provider_with fs_ctor ud
  provider_status FsStreamStatus.ok FsStreamStatus.oom p

unfoldable pub stdio_stream_create_adapter_provider :
    M (StdioStreamStatus × Option StreamAdapterProvider)
unfolding provider_with provider_status
stdio_stream_create_adapter_provider = do
  ud ← calloc
  p ← provider_with stdio_ctor ud
  provider_status StdioStreamStatus.ok StdioStreamStatus.oom p

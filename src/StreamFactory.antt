-- ===== src/StreamFactory.antt =====
-- The stream factory: a bounded registry of adapter providers, and the construction of streams
-- through it (stream_cr.c, stream_owner.c and the providers of the three adapters).
pub mod Provider
pub mod Registry
pub mod Ownership
pub mod Creation
use lex_leo.Prelude.{
  ℕ, suc, Bool, true, false, not, ◌&&◌, ◌||◌, Option, none, some, List, [], ◌∷◌, ◌++◌, ltb, leb,
  ◌==◌, if◌then◌else◌, length, text_eq,
}
use lex_leo.Status.{
  StreamStatus, StreamFactoryStatus, DynamicBufferStreamStatus, FsStreamStatus, StdioStreamStatus,
  stream_status_to_stream_factory_status,
}
use lex_leo.Memory.{M, pure, fail, ◌>>=◌, ◌>>◌, assert, calloc, free}
use lex_leo.DynamicBuffer.{DynamicBufferStream}
use lex_leo.DynamicBuffer.Lifetime.{dynamic_buffer_stream_ctor}
use lex_leo.FsStream.{FsStream, fs_stream_ctor}
use lex_leo.StdioStream.{StreamStandardStreamKind, StdioStream, stdio_stream_ctor}
use lex_leo.Stream.{Backend, dynamic_buffer, fs, stdio, Stream, close_backend}

-- `backend_ctor` with what its user data binds: the configured capacity of the dynamic buffer.
pub data BackendCtor : Type 0 where
  dynamic_buffer_ctor : ℕ → BackendCtor
  fs_ctor : BackendCtor
  stdio_ctor : BackendCtor

-- The arguments behind `const void *args`.
pub data CreatorArgs : Type 0 where
  no_args : CreatorArgs
  regular_file : Option (List ℕ) → List ℕ → CreatorArgs
  standard_stream : StreamStandardStreamKind → CreatorArgs

-- A provider at `addr`, with its user data at `ud`.
pub record StreamAdapterProvider : Type 0 where
  pub addr : ℕ
  pub ud : ℕ
  pub backend_ctor : BackendCtor

abbrev pub Entry : Type 0
Entry = List ℕ × StreamAdapterProvider

-- The blocks of a factory, and the first `reg.count` entries of its registry.
pub record StreamFactory : Type 0 where
  pub addr : ℕ
  pub ctor_ud : ℕ
  pub reg_entries : ℕ
  pub entries : List Entry
  pub cap : ℕ

-- The three allocations of a factory; a failed one gives back those before it.
allocated_entries : ℕ → ℕ → ℕ → Option ℕ → M (StreamFactoryStatus × Option StreamFactory)
allocated_entries fact_cap tmp ud none = do free ud; free tmp; pure (StreamFactoryStatus.oom, none)
allocated_entries fact_cap tmp ud (some p) = pure (
  StreamFactoryStatus.ok,
  some (record { addr = tmp; ctor_ud = ud; reg_entries = p; entries = []; cap = fact_cap }),
)

allocated_ud : ℕ → ℕ → Option ℕ → M (StreamFactoryStatus × Option StreamFactory)
unfolding allocated_entries
allocated_ud fact_cap tmp none = do free tmp; pure (StreamFactoryStatus.oom, none)
allocated_ud fact_cap tmp (some ud) = calloc >>= allocated_entries fact_cap tmp ud

allocated_factory : ℕ → Option ℕ → M (StreamFactoryStatus × Option StreamFactory)
unfolding allocated_ud
allocated_factory fact_cap none = pure (StreamFactoryStatus.oom, none)
allocated_factory fact_cap (some tmp) = calloc >>= allocated_ud fact_cap tmp

unfoldable pub stream_create_factory :
    (fact_cap : ℕ) → M (StreamFactoryStatus × Option StreamFactory)
unfolding allocated_factory
stream_create_factory fact_cap = do assert (ltb 0 fact_cap); calloc >>= allocated_factory fact_cap

-- The loop of `stream_factory_contains_id`.
unfoldable pub contains_id : List Entry → List ℕ → Bool
contains_id [] id = false
contains_id ((key, _) ∷ es) id = text_eq key id || contains_id es id

unfoldable pub stream_factory_contains_id : StreamFactory → List ℕ → Bool
unfolding contains_id
stream_factory_contains_id fact id = contains_id fact.entries id

-- The assertion on adapter identifiers.
unfoldable pub valid_id : List ℕ → Bool
valid_id id = not (length id == 0) && leb (length id) 255

add_checked : StreamFactory → List ℕ → StreamAdapterProvider → StreamFactoryStatus × StreamFactory
unfolding stream_factory_contains_id
add_checked fact id provider =
    if leb fact.cap (length fact.entries)
    then (StreamFactoryStatus.full, fact)
    else if stream_factory_contains_id fact id
    then (StreamFactoryStatus.already_exists, fact)
    else (StreamFactoryStatus.ok, record fact { entries = fact.entries ++ (id, provider) ∷ [] })

unfoldable pub stream_factory_add_adapter :
    StreamFactory → List ℕ → StreamAdapterProvider → M (StreamFactoryStatus × StreamFactory)
unfolding add_checked valid_id
stream_factory_add_adapter fact id provider = do
  assert (valid_id id)
  pure (add_checked fact id provider)

-- The user data's destructor, then the provider.
unfoldable pub stream_destroy_adapter_provider : StreamAdapterProvider → M (Unit {0})
stream_destroy_adapter_provider p = do free p.ud; free p.addr

unfoldable pub destroy_entries : List Entry → M (Unit {0})
destroy_entries [] = pure tt
destroy_entries ((_, p) ∷ es) = do stream_destroy_adapter_provider p; destroy_entries es

unfoldable pub stream_destroy_factory : Option StreamFactory → M (Unit {0})
unfolding destroy_entries
stream_destroy_factory none = pure tt
stream_destroy_factory (some fact) = do
  destroy_entries fact.entries
  free fact.reg_entries
  free fact.ctor_ud
  free fact.addr

-- The loop of `stream_factory_get_adapter_provider`.
unfoldable pub find_entry : List ℕ → List Entry → Option StreamAdapterProvider
find_entry id [] = none
find_entry id ((key, p) ∷ es) = if text_eq id key then some p else find_entry id es

unfoldable pub stream_factory_get_adapter_provider :
    StreamFactory → List ℕ → Option StreamAdapterProvider
unfolding find_entry
stream_factory_get_adapter_provider fact id = find_entry id fact.entries

-- `adapter_provider->backend_ctor(ud, args, &backend)`: the adapters assert the arguments that they
-- read.
wrap : {A : Type 0} → (A → Backend) → StreamStatus × Option A → M (StreamStatus × Option Backend)
wrap f (st, none) = pure (st, none)
wrap f (st, some a) = pure (st, some (f a))

unfoldable pub run_backend_ctor : BackendCtor → CreatorArgs → M (StreamStatus × Option Backend)
unfolding wrap
run_backend_ctor (dynamic_buffer_ctor cap) args =
    dynamic_buffer_stream_ctor cap >>= wrap dynamic_buffer
run_backend_ctor fs_ctor (regular_file path mode) = fs_stream_ctor path mode >>= wrap fs
run_backend_ctor stdio_ctor (standard_stream kind) = stdio_stream_ctor kind >>= wrap stdio
run_backend_ctor _ _ = fail

-- `stream_ctor`: the handle of a stream over a backend.
built_stream : Backend → Option ℕ → M (StreamStatus × Option Stream)
built_stream b none = pure (StreamStatus.oom, none)
built_stream b (some p) = pure (StreamStatus.ok, some (record { addr = p; backend = some b }))

unfoldable pub stream_ctor : Backend → M (StreamStatus × Option Stream)
unfolding built_stream
stream_ctor b = calloc >>= built_stream b

created_stream : Backend → StreamStatus × Option Stream → M (StreamFactoryStatus × Option Stream)
created_stream b (StreamStatus.ok, some s) = pure (StreamFactoryStatus.ok, some s)
created_stream b (StreamStatus.ok, none) = fail
created_stream b (st, _) = do
  close_backend b
  pure (stream_status_to_stream_factory_status st, none)

created_backend : StreamStatus × Option Backend → M (StreamFactoryStatus × Option Stream)
unfolding created_stream
created_backend (StreamStatus.ok, some b) = stream_ctor b >>= created_stream b
created_backend (StreamStatus.ok, none) = fail
created_backend (st, _) = pure (stream_status_to_stream_factory_status st, none)

create_with : CreatorArgs → Option StreamAdapterProvider → M (StreamFactoryStatus × Option Stream)
unfolding created_backend
create_with args none = pure (StreamFactoryStatus.not_found, none)
create_with args (some p) = run_backend_ctor p.backend_ctor args >>= created_backend

unfoldable pub stream_factory_create_stream :
    StreamFactory → List ℕ → CreatorArgs → M (StreamFactoryStatus × Option Stream)
unfolding create_with
stream_factory_create_stream fact id args = do
  assert (not (length id == 0))
  create_with args (stream_factory_get_adapter_provider fact id)

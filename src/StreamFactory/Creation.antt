-- ===== src/StreamFactory/Creation.antt =====
-- The construction of streams through a factory (stream_factory_create_stream of stream_owner.c and
-- the backend constructors of the adapters).
use lex_leo.Prelude.{
  ℕ, suc, ◌≤◌, ◌<◌, ◌≡◌, ◌≢◌, refl, true, false, Option, none, some, List, [], arith, ◌==◌, length,
}
use lex_leo.Status.{
  OsalFileStatus, StreamStatus, StreamFactoryStatus, stream_status_to_stream_factory_status,
}
use lex_leo.Memory.{Resource, World, Run, and_then, calloc}
use lex_leo.Memory.Balance.{
  Returns, returns, bind, Delta, Settles, Delta-Settles, count, Built, built, failed, Builds,
  Allocated, fresh, exhausted, calloc-Allocated, Reports, reports,
}
use lex_leo.DynamicBuffer.{size_max}
use lex_leo.DynamicBuffer.Lifetime.Ownership.{Ready, dynamic_buffer_stream_ctor-Builds}
use lex_leo.FsStream.{FsStream, supported_mode, valid_path, fs_stream_ctor}
use lex_leo.FsStream.Missing.{fs_stream_ctor_missing}
use lex_leo.FsStream.Ownership.{HasFile, fs_stream_ctor-Builds}
use lex_leo.StdioStream.Ownership.{stdio_stream_ctor-Builds}
use lex_leo.Stream.{Backend, dynamic_buffer, fs, stdio, Stream}
use lex_leo.Stream.Ownership.{own_backend, own_stream, close_backend-Delta}
use lex_leo.StreamFactory.{
  BackendCtor, dynamic_buffer_ctor, fs_ctor, stdio_ctor, CreatorArgs, no_args, regular_file,
  standard_stream, StreamAdapterProvider, StreamFactory, wrap, run_backend_ctor, built_stream,
  stream_ctor, created_stream, created_backend, stream_factory_get_adapter_provider,
  stream_factory_create_stream,
}

-- The arguments that an adapter's assertions allow.
abbrev pub Suits : BackendCtor → CreatorArgs → Type 0
Suits (dynamic_buffer_ctor cap) args = (0 < cap) × (cap ≤ size_max)
Suits fs_ctor (regular_file path mode) = supported_mode mode ≡ true
Suits stdio_ctor (standard_stream kind) = Unit
Suits _ _ = ⊥

-- The backend that a constructor makes of its arguments.
abbrev pub Backs : BackendCtor → CreatorArgs → Backend → Type 0
Backs (dynamic_buffer_ctor cap) args (dynamic_buffer b) = Ready cap b
Backs fs_ctor args (fs b) = HasFile b
Backs stdio_ctor (standard_stream kind) (stdio b) = b.stdio ≡ some kind
Backs _ _ _ = ⊥

wrap-Builds :
    {A : Type 0} (f : A → Backend) {own : A → List Resource} {P : A → Type 0} (Q : Backend → Type 0)
    (w : World)
    → ((a : A) (r : Resource) → count r (own_backend (f a)) ≡ count r (own a))
    → ((a : A) → P a → Q (f a))
    → {st : StreamStatus} {o : Option A} {w' : World} → Built StreamStatus.ok own P w st o w'
    → Returns (Builds StreamStatus.ok own_backend Q w) (wrap f (st, o) w')
unfolding wrap
wrap-Builds f Q w owns good (built {h} p d) =
    returns (built (good h p) (λ r. omega (arith, d r, owns h r)))
wrap-Builds f Q w owns good (failed ne b) = returns (failed ne b)

-- A backend constructor on arguments that suit it never aborts, and makes a backend of its kind with
-- exactly the resources of that backend, or leaves nothing behind.
pub run_backend_ctor-Builds :
    (ctor : BackendCtor) (args : CreatorArgs) (w : World)
    → Suits ctor args
    → Returns
        (Builds StreamStatus.ok own_backend (Backs ctor args) w)
        (run_backend_ctor ctor args w)
unfolding run_backend_ctor
run_backend_ctor-Builds (dynamic_buffer_ctor cap) args w s =
    bind (dynamic_buffer_stream_ctor-Builds cap w s.0 s.1) λ (st, o) w' b.
      wrap-Builds dynamic_buffer (Backs (dynamic_buffer_ctor cap) args) w (λ a r. refl) (λ a p. p) b
run_backend_ctor-Builds fs_ctor (regular_file path mode) w s =
    bind (fs_stream_ctor-Builds path mode w s) λ (st, o) w' b.
      wrap-Builds fs (Backs fs_ctor (regular_file path mode)) w (λ a r. refl) (λ a p. p) b
run_backend_ctor-Builds stdio_ctor (standard_stream kind) w s =
    bind (stdio_stream_ctor-Builds kind w) λ (st, o) w' b.
      wrap-Builds stdio (Backs stdio_ctor (standard_stream kind)) w (λ a r. refl) (λ a p. p) b
run_backend_ctor-Builds fs_ctor no_args w s = absurd s
run_backend_ctor-Builds fs_ctor (standard_stream kind) w s = absurd s
run_backend_ctor-Builds stdio_ctor no_args w s = absurd s
run_backend_ctor-Builds stdio_ctor (regular_file path mode) w s = absurd s

-- A stream over a backend that the constructor made.
abbrev pub StreamOver : BackendCtor → CreatorArgs → Stream → Type 0
StreamOver ctor args s = (b : Backend) × (s.backend ≡ some b) × Backs ctor args b

-- A stream that owns exactly what was taken for it, or a status that came from below, and nothing
-- allocated or open but orphans.
pub data Created (ctor : BackendCtor) (args : CreatorArgs) (w : World)
    : StreamFactoryStatus → Option Stream → World → Type 0 where
  created :
      {s : Stream} {w' : World}
      → StreamOver ctor args s
      → Delta (own_stream s) [] w w'
      → Created ctor args w StreamFactoryStatus.ok (some s) w'
  not_created :
      (st : StreamStatus) {w' : World}
      → st ≢ StreamStatus.ok
      → Settles [] [] w w'
      → Created ctor args w (stream_status_to_stream_factory_status st) none w'

module _ (ctor : BackendCtor) (args : CreatorArgs) (w : World) where
  abbrev Streams : StreamFactoryStatus × Option Stream → World → Type 0
  Streams (st, o) w' = Created ctor args w st o w'

  built_stream-Streams :
      (b : Backend) (w₁ : World)
      → Backs ctor args b
      → Delta (own_backend b) [] w w₁
      → {o : Option ℕ} {w₂ : World} → Allocated w₁ o w₂
      → Returns Streams (and_then (built_stream b o w₂) (created_stream b))
  unfolding built_stream created_stream stream_status_to_stream_factory_status
  built_stream-Streams b w₁ good d (fresh p e) =
      returns (created (b, refl, good) (λ r. omega (arith, d r, e r)))
  built_stream-Streams b w₁ good d (exhausted {w' = w₂} e) =
      bind (close_backend-Delta b w₂ (λ r. omega (arith, d r, e r))) λ st w₃ c. returns (
        not_created StreamStatus.oom (cc)
          (Delta-Settles [] [] w w₃ (λ r. omega (arith, d r, e r, c r))))

  stream_ctor-Streams :
      (b : Backend) (w₁ : World)
      → Backs ctor args b
      → Delta (own_backend b) [] w w₁
      → Returns Streams (and_then (stream_ctor b w₁) (created_stream b))
  unfolding stream_ctor
  stream_ctor-Streams b w₁ good d = allocated (calloc w₁) (calloc-Allocated w₁)
    where
      allocated :
          (m : Run (Option ℕ))
          → Returns (Allocated w₁) m
          → Returns Streams (and_then (and_then m (built_stream b)) (created_stream b))
      allocated m (returns a) = built_stream-Streams b w₁ good d a

  created_backend-Streams :
      {st : StreamStatus} {o : Option Backend} {w₁ : World}
      → Built StreamStatus.ok own_backend (Backs ctor args) w st o w₁
      → Returns Streams (created_backend (st, o) w₁)
  unfolding created_backend
  created_backend-Streams (built {h = b} {w' = w₁} good d) = stream_ctor-Streams b w₁ good d
  created_backend-Streams (failed {st} {w' = w₁} ne b) = other st ne
    where
      other :
          (st : StreamStatus)
          → st ≢ StreamStatus.ok
          → Returns Streams (created_backend (st, none) w₁)
      other StreamStatus.ok ne = absurd (ne refl)
      other st ne = returns (not_created st ne (Delta-Settles [] [] w w₁ b))

-- Creating a stream through a factory that has a provider for the identifier, with arguments that
-- suit it, never aborts. On OK the stream owns exactly what was taken for it and stands over a
-- backend that the provider's adapter made; on any other status everything that was taken is
-- released, wherever the construction failed: a half-built backend is closed. Where that close is of a
-- file and fails, its OSAL_FILE block stays allocated.
pub stream_factory_create_stream-Created :
    (f : StreamFactory) (id : List ℕ) (args : CreatorArgs) (p : StreamAdapterProvider) (w : World)
    → 0 < length id
    → stream_factory_get_adapter_provider f id ≡ some p
    → Suits p.backend_ctor args
    → Returns
        (λ (st, o) w'. Created p.backend_ctor args w st o w')
        (stream_factory_create_stream f id args w)
unfolding stream_factory_create_stream
stream_factory_create_stream-Created f id args p w named found suits =
    let nonempty : (length id == 0) ≡ false = ground arith in
    rw (nonempty, found)
      (bind (run_backend_ctor-Builds p.backend_ctor args w suits)
        λ (st, o) w' b. created_backend-Streams p.backend_ctor args w b)

io_error_through :
    (m : Run (StreamStatus × Option FsStream))
    → Returns (λ (st, o) w'. Reports StreamStatus.io_error st o) m
    → Returns
        (λ (st, o) w'. Reports StreamFactoryStatus.io_error st o)
        (and_then (and_then m (wrap fs)) created_backend)
unfolding wrap created_backend stream_status_to_stream_factory_status
io_error_through m (returns {a = (_, _)} reports) = returns reports

-- A missing file behind a provider of file backends, in a supported mode and at a valid path: the
-- factory reports IO_ERROR.
pub stream_factory_create_stream_missing :
    (f : StreamFactory) (id : List ℕ) (p : StreamAdapterProvider) (path : Option (List ℕ))
    (mode : List ℕ) (w : World)
    → 0 < length id
    → stream_factory_get_adapter_provider f id ≡ some p
    → p.backend_ctor ≡ fs_ctor
    → supported_mode mode ≡ true
    → valid_path path ≡ true
    → w.grants w.next ≡ true
    → w.answers (suc w.next) ≡ OsalFileStatus.noent
    → Returns
        (λ (st, o) w'. Reports StreamFactoryStatus.io_error st o)
        (stream_factory_create_stream f id (regular_file path mode) w)
unfolding stream_factory_create_stream run_backend_ctor
stream_factory_create_stream_missing f id p path mode w named found is_fs supported good room
      missing =
    let nonempty : (length id == 0) ≡ false = ground arith in
    rw (nonempty, found)
      (simp is_fs (
        io_error_through (fs_stream_ctor path mode w)
          (fs_stream_ctor_missing path mode w good supported room missing)))

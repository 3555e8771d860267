-- ===== src/App/Streams/Ownership.antt =====
-- What lexleo_app_init_stream yields and holds.
use lex_leo.Prelude.{ℕ, ◌≡◌, ◌≢◌, refl, true, Option, none, some, List, [], ◌∷◌, arith}
use lex_leo.Status.{StreamStatus, FsStreamStatus, StdioStreamStatus, DynamicBufferStreamStatus}
use lex_leo.Memory.{Resource, World, block}
use lex_leo.Memory.Balance.{Returns, returns, bind, Delta, Balanced, Built, built, failed}
use lex_leo.DynamicBuffer.{DynamicBufferStream}
use lex_leo.DynamicBuffer.Contents.{own_dbs}
use lex_leo.DynamicBuffer.Lifetime.{dynamic_buffer_stream_default_cfg}
use lex_leo.DynamicBuffer.Lifetime.Ownership.{Ready, dynamic_buffer_stream_create_init-Builds}
use lex_leo.FsStream.{FsStream}
use lex_leo.FsStream.Ownership.{own_fs, HasFile, fs_stream_create_init-Builds}
use lex_leo.StdioStream.{StreamStandardStreamKind, StdioStream}
use lex_leo.StdioStream.Ownership.{own_stdio, stdio_stream_create_init-Builds}
use lex_leo.Stream.{Backend, dynamic_buffer, fs, stdio, Stream}
use lex_leo.Stream.Ownership.{
  own_backend, own_stream, close_backend-Delta, stream_create_init-Builds,
}
use lex_leo.App.{LexleoAppIoKind, LexleoAppIoCfg, lexleo_app_supported_io_cfg, supported_file_mode}
use lex_leo.App.Streams.{
  Slot, standard_backend, init_standard, file_backend, init_file, buffer_backend, init_backend,
  kept_stream, stream_over, lexleo_app_init_stream,
}

-- The backend that a kind of configuration asks for in a field of the handle.
abbrev pub Serves : Slot → LexleoAppIoKind → Backend → Type 0
Serves Slot.input LexleoAppIoKind.stdio (stdio b) = b.stdio ≡ some StreamStandardStreamKind.stdin
Serves Slot.output LexleoAppIoKind.stdio (stdio b) = b.stdio ≡ some StreamStandardStreamKind.stdout
Serves Slot.err LexleoAppIoKind.stdio (stdio b) = b.stdio ≡ some StreamStandardStreamKind.stderr
Serves slot LexleoAppIoKind.file (fs b) = HasFile b
Serves slot LexleoAppIoKind.buffer (dynamic_buffer b) = Ready 256 b
Serves _ _ _ = ⊥

abbrev pub StreamServes : Slot → LexleoAppIoKind → Stream → Type 0
StreamServes slot kind s = (b : Backend) × (s.backend ≡ some b) × Serves slot kind b

-- A handle with exactly what was taken for it, or none and nothing held.
pub data Made {H : Type 0} (own : H → List Resource) (P : H → Type 0) (w : World)
    : Option H → World → Type 0 where
  made : {h : H} {w' : World} → P h → Delta (own h) [] w w' → Made own P w (some h) w'
  not_made : {w' : World} → Balanced w w' → Made own P w none w'

module _ (w : World) where
  standard_backend-Made :
      (kind : StreamStandardStreamKind) (P : Backend → Type 0)
      → ((b : StdioStream) → b.stdio ≡ some kind → P (stdio b))
      → {st : StdioStreamStatus} {o : Option StdioStream} {w' : World}
      → Built StdioStreamStatus.ok own_stdio (λ s. s.stdio ≡ some kind) w st o w'
      → Returns (Made own_backend P w) (standard_backend (st, o) w')
  unfolding standard_backend
  standard_backend-Made kind P good (built {h} e d) = returns (made (good h e) d)
  standard_backend-Made kind P good (failed {st = StdioStreamStatus.ok} ne b) = absurd (ne refl)
  standard_backend-Made kind P good (failed {st = StdioStreamStatus.oom} ne b) =
      returns (not_made b)

  init_standard-Made :
      (slot : Slot)
      → slot ≢ Slot.logger_stream
      → Returns (Made own_backend (Serves slot LexleoAppIoKind.stdio) w) (init_standard slot w)
  unfolding init_standard
  init_standard-Made Slot.input ne =
      bind (stdio_stream_create_init-Builds StreamStandardStreamKind.stdin w)
        λ (st, o) w' b. standard_backend-Made StreamStandardStreamKind.stdin _ (λ b e. e) b
  init_standard-Made Slot.output ne =
      bind (stdio_stream_create_init-Builds StreamStandardStreamKind.stdout w)
        λ (st, o) w' b. standard_backend-Made StreamStandardStreamKind.stdout _ (λ b e. e) b
  init_standard-Made Slot.err ne =
      bind (stdio_stream_create_init-Builds StreamStandardStreamKind.stderr w)
        λ (st, o) w' b. standard_backend-Made StreamStandardStreamKind.stderr _ (λ b e. e) b
  init_standard-Made Slot.logger_stream ne = absurd (ne refl)

  file_backend-Made :
      {st : FsStreamStatus} {o : Option FsStream} {w' : World}
      → Built FsStreamStatus.ok own_fs HasFile w st o w'
      → (P : Backend → Type 0) → ((b : FsStream) → HasFile b → P (fs b))
      → Returns (Made own_backend P w) (file_backend (st, o) w')
  unfolding file_backend
  file_backend-Made (built {h} e d) P good = returns (made (good h e) d)
  file_backend-Made (failed {st} {w'} ne b) P good = other st ne
    where
      other :
          (st : FsStreamStatus)
          → st ≢ FsStreamStatus.ok
          → Returns (Made own_backend P w) (file_backend (st, none) w')
      other FsStreamStatus.ok ne = absurd (ne refl)
      other _ ne = returns (not_made b)

  init_file-Made :
      (slot : Slot) (path mode : Option (List ℕ))
      → supported_file_mode mode ≡ true
      → Returns (Made own_backend (Serves slot LexleoAppIoKind.file) w) (init_file path mode w)
  unfolding init_file supported_file_mode
  init_file-Made slot path none h = absurd (cc)
  init_file-Made slot path (some mode) h =
      bind (fs_stream_create_init-Builds path mode w h)
        λ (st, o) w' b. file_backend-Made b _ (λ b f. serves slot b f)
    where
      serves : (slot : Slot) (b : FsStream) → HasFile b → Serves slot LexleoAppIoKind.file (fs b)
      serves Slot.input b f = f
      serves Slot.output b f = f
      serves Slot.err b f = f
      serves Slot.logger_stream b f = f

  buffer_backend-Made :
      (slot : Slot) {st : DynamicBufferStreamStatus} {o : Option DynamicBufferStream} {w' : World}
      → Built DynamicBufferStreamStatus.ok own_dbs (Ready 256) w st o w'
      → Returns
          (Made own_backend (Serves slot LexleoAppIoKind.buffer) w)
          (buffer_backend (st, o) w')
  unfolding buffer_backend
  buffer_backend-Made slot (built {h} e d) = returns (made (serves slot h e) d)
    where
      serves :
          (slot : Slot) (b : DynamicBufferStream)
          → Ready 256 b
          → Serves slot LexleoAppIoKind.buffer (dynamic_buffer b)
      serves Slot.input b f = f
      serves Slot.output b f = f
      serves Slot.err b f = f
      serves Slot.logger_stream b f = f
  buffer_backend-Made slot (failed {st = DynamicBufferStreamStatus.ok} ne b) = absurd (ne refl)
  buffer_backend-Made slot (failed {st = DynamicBufferStreamStatus.oom} ne b) = returns (not_made b)

  kept_stream-Made :
      (slot : Slot) (kind : LexleoAppIoKind) (b : Backend) (w₁ : World)
      → Serves slot kind b
      → Delta (own_backend b) [] w w₁
      → {st : StreamStatus} {o : Option Stream} {w₂ : World}
      → Built StreamStatus.ok (λ s. block s.addr ∷ []) (λ s. s.backend ≡ some b) w₁ st o w₂
      → Returns (Made own_stream (StreamServes slot kind) w) (kept_stream b (st, o) w₂)
  unfolding kept_stream
  kept_stream-Made slot kind b w₁ good d (built {h = s} e d₂) =
      returns (made (b, e, good) (λ r. rw e (omega (arith, d r, d₂ r))))
  kept_stream-Made slot kind b w₁ good d (failed {st} {w' = w₂} ne bal) = other st ne
    where
      other :
          (st : StreamStatus)
          → st ≢ StreamStatus.ok
          → Returns (Made own_stream (StreamServes slot kind) w) (kept_stream b (st, none) w₂)
      other StreamStatus.ok ne = absurd (ne refl)
      other _ ne =
          bind (close_backend-Delta b w₂ (λ r. omega (arith, d r, bal r)))
            λ _ w₃ d₃. returns (not_made (λ r. omega (arith, d r, bal r, d₃ r)))

  stream_over-Made :
      (slot : Slot) (kind : LexleoAppIoKind) {o : Option Backend} {w₁ : World}
      → Made own_backend (Serves slot kind) w o w₁
      → Returns (Made own_stream (StreamServes slot kind) w) (stream_over o w₁)
  unfolding stream_over
  stream_over-Made slot kind (made {h = b} {w' = w₁} good d) =
      bind (stream_create_init-Builds b w₁) λ (st, o) w₂ c. kept_stream-Made slot kind b w₁ good d c
  stream_over-Made slot kind (not_made b) = returns (not_made b)

  init_backend-Made :
      (slot : Slot) (kind : LexleoAppIoKind) (path mode : Option (List ℕ))
      → lexleo_app_supported_io_cfg (record { kind = kind; path = path; mode = mode }) ≡ true
      → (kind ≡ LexleoAppIoKind.stdio → slot ≢ Slot.logger_stream)
      → Returns
          (Made own_backend (Serves slot kind) w)
          (init_backend slot (record { kind = kind; path = path; mode = mode }) w)
  unfolding init_backend lexleo_app_supported_io_cfg dynamic_buffer_stream_default_cfg
  init_backend-Made slot LexleoAppIoKind.stdio path mode h ne = init_standard-Made slot (ne refl)
  init_backend-Made slot LexleoAppIoKind.file path mode h ne =
      init_file-Made slot path mode (ground (arith, h))
  init_backend-Made slot LexleoAppIoKind.buffer path mode h ne =
      bind (dynamic_buffer_stream_create_init-Builds 256 w (omega arith) (omega arith))
        λ (st, o) w' b. buffer_backend-Made slot b

  -- For a configuration that the composition root accepts, and a field that may hold it (the stream of
  -- the logger is not a standard stream), `lexleo_app_init_stream` never aborts: the stream stands
  -- over a backend of the configured kind, the standard stream of that field if it is one, and owns
  -- exactly what was taken; if there is none, the backend was closed and nothing is held.
  pub lexleo_app_init_stream-Made :
      (slot : Slot) (io_cfg : LexleoAppIoCfg)
      → lexleo_app_supported_io_cfg io_cfg ≡ true
      → (io_cfg.kind ≡ LexleoAppIoKind.stdio → slot ≢ Slot.logger_stream)
      → Returns
          (Made own_stream (StreamServes slot io_cfg.kind) w)
          (lexleo_app_init_stream slot io_cfg w)
  unfolding lexleo_app_init_stream
  lexleo_app_init_stream-Made slot io_cfg h ne =
      bind (init_backend-Made slot io_cfg.kind io_cfg.path io_cfg.mode h ne)
        λ o w' m. stream_over-Made slot io_cfg.kind m

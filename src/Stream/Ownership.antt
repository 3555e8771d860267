-- ===== src/Stream/Ownership.antt =====
-- What construction and destruction of stream handles do to the heap and the open files
-- (stream_cr.c, stream_owner.c).
use lex_leo.Prelude.{ℕ, ◌≡◌, refl, Option, none, some, List, [], ◌∷◌, arith}
use lex_leo.Status.{StreamStatus}
use lex_leo.Memory.{Resource, World, block}
use lex_leo.Memory.Balance.{
  Returns, returns, bind, weaken, Delta, Settles, Delta-Settles, Holds, Built, built, failed,
  Builds, Allocated, fresh, exhausted, calloc-Allocated, free-held,
}
use lex_leo.DynamicBuffer.Contents.{own_dbs}
use lex_leo.DynamicBuffer.Lifetime.Ownership.{dynamic_buffer_stream_close-Delta}
use lex_leo.FsStream.Ownership.{own_fs, fs_stream_close-Delta}
use lex_leo.StdioStream.Ownership.{own_stdio, stdio_stream_close-Delta}
use lex_leo.Stream.{
  Backend, dynamic_buffer, fs, stdio, Stream, close_backend, close_if, stream_destroy, new_stream,
  stream_create, stream_complete_default_init, stream_create_init, init_created,
}

abbrev pub own_backend : Backend → List Resource
own_backend (dynamic_buffer b) = own_dbs b
own_backend (fs b) = own_fs b
own_backend (stdio b) = own_stdio b

abbrev pub own_if : Option Backend → List Resource
own_if none = []
own_if (some b) = own_backend b

abbrev pub own_stream : Stream → List Resource
own_stream s = block s.addr ∷ own_if s.backend

-- Closing any backend gives back exactly what it owns.
pub close_backend-Delta :
    (b : Backend) (w : World)
    → Holds (own_backend b) w
    → Returns (λ _ w'. Delta [] (own_backend b) w w') (close_backend b w)
unfolding close_backend
close_backend-Delta (dynamic_buffer b) w h =
    weaken (dynamic_buffer_stream_close-Delta b w h) λ _ w' d. d.1
close_backend-Delta (fs b) w h = fs_stream_close-Delta b w h
close_backend-Delta (stdio b) w h = weaken (stdio_stream_close-Delta b w h) λ _ w' d. d.1

close_if_lem :
    (o : Option Backend) (p : ℕ) (w : World)
    → Holds (block p ∷ own_if o) w
    → Returns (λ _ w'. Delta [] (own_if o) w w' × Holds (block p ∷ []) w') (close_if o w)
unfolding close_if
close_if_lem none p w h = returns (λ r. refl, h)
close_if_lem (some b) p w h =
    bind (close_backend-Delta b w (λ r. omega (arith, h r)))
      λ _ w' d. returns (d, λ r. omega (arith, h r, d r))

-- What the release of a stream does to what is held.
pub stream_destroy-Delta :
    (s : Stream) (w : World)
    → Holds (own_stream s) w
    → Returns (λ _ w'. Delta [] (own_stream s) w w') (stream_destroy (some s) w)
unfolding stream_destroy
stream_destroy-Delta s w h =
    bind (close_if_lem s.backend s.addr w h) λ _ w₁ (d₁, h₁).
      weaken (free-held s.addr [] w₁ h₁) λ _ w₂ (d₂, h₂) r. omega (arith, d₁ r, d₂ r)

-- `stream_destroy` of a stream that owns its resources never aborts, closes and releases exactly those,
-- its backend's included, whichever kind the backend is; where the backend's file cannot be closed
-- properly, the OSAL_FILE block stays allocated.
pub stream_destroy-Settles :
    (s : Stream) (w : World)
    → Holds (own_stream s) w
    → Returns (λ _ w'. Settles [] (own_stream s) w w') (stream_destroy (some s) w)
stream_destroy-Settles s w h =
    weaken (stream_destroy-Delta s w h) λ _ w' d. Delta-Settles [] (own_stream s) w w' d

pub create-Builds :
    (w : World)
    → Returns
        (Builds StreamStatus.ok (λ s. block s.addr ∷ []) (λ s. s.backend ≡ none) w)
        (stream_create w)
unfolding stream_create
create-Builds w = bind (calloc-Allocated w) λ o w' a. go a
  where
    go :
        {o : Option ℕ} {w' : World}
        → Allocated w o w'
        → Returns
            (Builds StreamStatus.ok (λ s. block s.addr ∷ []) (λ s. s.backend ≡ none) w)
            (new_stream o w')
    go (fresh p d) = returns (built refl d)
    go (exhausted b) = returns (failed (cc) b)

module _ (b : Backend) (w : World) where
  init_created-Builds :
      {st : StreamStatus} {o : Option Stream} {w' : World}
      → Built StreamStatus.ok (λ s. block s.addr ∷ []) (λ s. s.backend ≡ none) w st o w'
      → Returns
          (Builds StreamStatus.ok (λ s. block s.addr ∷ []) (λ s. s.backend ≡ some b) w)
          (init_created (some b) (st, o) w')
  unfolding init_created stream_complete_default_init
  init_created-Builds (built unset d) = simp unset (returns (built refl d))
  init_created-Builds (failed ne e) = returns (failed ne e)

  -- `stream_create_init` with a backend never aborts: on success the stream holds that backend and
  -- only its own block is new, and on failure nothing has changed, so that the backend is still the
  -- caller's to close.
  pub stream_create_init-Builds :
      Returns
        (Builds StreamStatus.ok (λ s. block s.addr ∷ []) (λ s. s.backend ≡ some b) w)
        (stream_create_init (some b) w)
  unfolding stream_create_init
  stream_create_init-Builds = bind (create-Builds w) λ (st, o) w' c. init_created-Builds c

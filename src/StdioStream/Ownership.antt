-- ===== src/StdioStream/Ownership.antt =====
-- What construction and release of standard-stream backends do to the heap (stdio_stream_cr.c).
use lex_leo.Prelude.{ℕ, ◌≡◌, refl, Option, none, some, List, [], ◌∷◌, arith}
use lex_leo.Status.{StreamStatus, StdioStreamStatus, stdio_stream_status_to_stream_status}
use lex_leo.Memory.{Resource, World, block}
use lex_leo.Memory.Balance.{
  Returns, returns, bind, Delta, Holds, Built, built, failed, Builds, Allocated, fresh, exhausted,
  calloc-Allocated, free-held,
}
use lex_leo.StdioStream.{
  StreamStandardStreamKind, StdioStream, new_handle, init_created, ctor_created, stdio_stream_close,
  stdio_stream_create, stdio_stream_complete_default_init, stdio_stream_create_init,
  stdio_stream_ctor,
}

abbrev pub own_stdio : StdioStream → List Resource
own_stdio s = block s.addr ∷ []

-- Closing a handle that owns its block never aborts, reports OK, and gives back the handle and
-- nothing else: the standard stream is borrowed.
pub stdio_stream_close-Delta :
    (s : StdioStream) (w : World)
    → Holds (own_stdio s) w
    → Returns
        (λ st w'. (st ≡ StreamStatus.ok) × Delta [] (own_stdio s) w w')
        (stdio_stream_close (some s) w)
unfolding stdio_stream_close
stdio_stream_close-Delta s w h = bind (free-held s.addr [] w h) λ _ w' (d, _). returns (refl, d)

create-Builds :
    (w : World)
    → Returns
        (Builds StdioStreamStatus.ok own_stdio (λ s. s.stdio ≡ none) w)
        (stdio_stream_create w)
unfolding stdio_stream_create
create-Builds w = bind (calloc-Allocated w) λ o w' a. go a
  where
    go :
        {o : Option ℕ} {w' : World}
        → Allocated w o w'
        → Returns (Builds StdioStreamStatus.ok own_stdio (λ s. s.stdio ≡ none) w) (new_handle o w')
    go (fresh p d) = returns (built refl d)
    go (exhausted b) = returns (failed (cc) b)

module _ (kind : StreamStandardStreamKind) (w : World) where
  init_created-Builds :
      {st : StdioStreamStatus} {o : Option StdioStream} {w' : World}
      → Built StdioStreamStatus.ok own_stdio (λ s. s.stdio ≡ none) w st o w'
      → Returns
          (Builds StdioStreamStatus.ok own_stdio (λ s. s.stdio ≡ some kind) w)
          (init_created kind (st, o) w')
  unfolding init_created stdio_stream_complete_default_init
  init_created-Builds (built unset d) = simp unset (returns (built refl d))
  init_created-Builds (failed ne b) = returns (failed ne b)

  -- `stdio_stream_create_init` never aborts: on OK the handle wraps the stream of the kind asked
  -- for and owns one new block, and on any other status nothing is held.
  pub stdio_stream_create_init-Builds :
      Returns
        (Builds StdioStreamStatus.ok own_stdio (λ s. s.stdio ≡ some kind) w)
        (stdio_stream_create_init kind w)
  unfolding stdio_stream_create_init
  stdio_stream_create_init-Builds = bind (create-Builds w) λ (st, o) w' b. init_created-Builds b

  ctor_created-Builds :
      {st : StdioStreamStatus} {o : Option StdioStream} {w' : World}
      → Built StdioStreamStatus.ok own_stdio (λ s. s.stdio ≡ none) w st o w'
      → Returns
          (Builds StreamStatus.ok own_stdio (λ s. s.stdio ≡ some kind) w)
          (ctor_created kind (st, o) w')
  unfolding ctor_created stdio_stream_complete_default_init stdio_stream_status_to_stream_status
  ctor_created-Builds (built unset d) = simp unset (returns (built refl d))
  ctor_created-Builds (failed {st} ne b) = returns (failed (ground arith) b)

  pub stdio_stream_ctor-Builds :
      Returns
        (Builds StreamStatus.ok own_stdio (λ s. s.stdio ≡ some kind) w)
        (stdio_stream_ctor kind w)
  unfolding stdio_stream_ctor
  stdio_stream_ctor-Builds = bind (create-Builds w) λ (st, o) w' b. ctor_created-Builds b

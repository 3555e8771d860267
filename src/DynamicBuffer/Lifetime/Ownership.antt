-- ===== src/DynamicBuffer/Lifetime/Ownership.antt =====
-- What construction and release of dynamic-buffer handles do to the heap
-- (dynamic_buffer_stream_cr.c).
use lex_leo.Prelude.{
  ℕ, ◌≤◌, ◌<◌, ◌≡◌, refl, ap, Option, none, some, [], ◌∷◌, arith, lt→ltb, length-replicate,
}
use lex_leo.Status.{StreamStatus, DynamicBufferStreamStatus}
use lex_leo.Memory.{World, block}
use lex_leo.Memory.Balance.{
  Returns, returns, bind, weaken, Delta, Balanced, Holds, count, Built, built, failed, Builds,
  Allocated, fresh, exhausted, calloc-Allocated, free-held,
}
use lex_leo.DynamicBuffer.{size_max, DynamicBufferStream}
use lex_leo.DynamicBuffer.Contents.{IsValid, unread, own_dbs, buf_block}
use lex_leo.DynamicBuffer.Lifetime.{
  free_storage, new_handle, new_storage, init_created, ctor_created, finish_create_init,
  finish_ctor, zero_buffer, dynamic_buffer_stream_status_to_stream_status,
  dynamic_buffer_stream_close, dynamic_buffer_stream_create,
  dynamic_buffer_stream_complete_default_init, dynamic_buffer_stream_create_init,
  dynamic_buffer_stream_ctor,
}

free_storage_lem :
    (b : Option ℕ) (p : ℕ) (w : World)
    → Holds (block p ∷ buf_block b) w
    → Returns (λ _ w'. Delta [] (buf_block b) w w' × Holds (block p ∷ []) w') (free_storage b w)
unfolding free_storage
free_storage_lem none p w h = returns (λ r. refl, h)
free_storage_lem (some b) p w h = free-held b (block p ∷ []) w (λ r. omega (arith, h r))

-- Closing a handle that owns its blocks never aborts, reports OK, and gives back exactly the
-- handle and, if it has one, its storage.
pub dynamic_buffer_stream_close-Delta :
    (s : DynamicBufferStream) (w : World)
    → Holds (own_dbs s) w
    → Returns
        (λ st w'. (st ≡ StreamStatus.ok) × Delta [] (own_dbs s) w w')
        (dynamic_buffer_stream_close (some s) w)
unfolding dynamic_buffer_stream_close
dynamic_buffer_stream_close-Delta s w h =
    bind (free_storage_lem s.dbuf.buf s.addr w h) λ _ w₁ (d₁, h₁).
      bind (free-held s.addr [] w₁ h₁)
        λ _ w₂ (d₂, h₂). returns (refl, λ r. omega (arith, d₁ r, d₂ r))

create-Builds :
    (w : World)
    → Returns
        (Builds DynamicBufferStreamStatus.ok own_dbs (λ s. s.dbuf ≡ zero_buffer) w)
        (dynamic_buffer_stream_create w)
unfolding dynamic_buffer_stream_create
create-Builds w = bind (calloc-Allocated w) λ o w' a. go a
  where
    go :
        {o : Option ℕ} {w' : World}
        → Allocated w o w'
        → Returns
            (Builds DynamicBufferStreamStatus.ok own_dbs (λ s. s.dbuf ≡ zero_buffer) w)
            (new_handle o w')
    go (fresh p d) = returns (built refl d)
    go (exhausted b) = returns (failed (cc) b)

-- A handle ready for use: well formed, empty, of the configured capacity.
pub record Ready (default_cap : ℕ) (s : DynamicBufferStream) : Type 0 where
  pub valid : IsValid s.dbuf
  pub empty : unread s.dbuf ≡ []
  pub cap : s.dbuf.cap ≡ default_cap

-- The outcome of the initialisation of a fresh handle.
data Initialised (default_cap addr : ℕ) (w : World)
    : DynamicBufferStreamStatus → DynamicBufferStream → World → Type 0 where
  ready :
      {s : DynamicBufferStream} {w' : World}
      → Ready default_cap s
      → Delta (own_dbs s) (block addr ∷ []) w w'
      → Initialised default_cap addr w DynamicBufferStreamStatus.ok s w'
  no_storage :
      {s : DynamicBufferStream} {w' : World}
      → own_dbs s ≡ block addr ∷ []
      → Balanced w w'
      → Initialised default_cap addr w DynamicBufferStreamStatus.oom s w'

init-Initialised :
    (s : DynamicBufferStream) (default_cap : ℕ) (w : World)
    → s.dbuf ≡ zero_buffer
    → 0 < default_cap
    → default_cap ≤ size_max
    → Returns
        (λ (st, s') w'. Initialised default_cap s.addr w st s' w')
        (dynamic_buffer_stream_complete_default_init s default_cap w)
unfolding dynamic_buffer_stream_complete_default_init
init-Initialised s default_cap w zeroed pos bounded = rw (lt→ltb _ _ pos) (
    let unset : s.dbuf.buf ≡ none = ap (λ d. d.buf) zeroed in
    let unowned : own_dbs s ≡ block s.addr ∷ [] = rw unset in
    simp unset (bind (calloc-Allocated w) λ o w' a. go unowned a))
  where
    go :
        {o : Option ℕ} {w' : World}
        → own_dbs s ≡ block s.addr ∷ []
        → Allocated w o w'
        → Returns
            (λ (st, s') w'. Initialised default_cap s.addr w st s' w')
            (new_storage s default_cap o w')
    go unowned (fresh p d) = returns (
        ready
          (record {
            valid = record {
              has_buf = refl;
              pos = pos;
              bounded = bounded;
              size = length-replicate default_cap 0;
              order = omega arith;
              fits = omega arith;
            };
            empty = refl;
            cap = refl;
          })
          (λ r. omega (arith, d r)))
    go unowned (exhausted b) = returns (no_storage unowned b)

module _ (default_cap : ℕ) (w : World) where
  fresh_handle :
      (s : DynamicBufferStream) (w₁ : World)
      → s.dbuf ≡ zero_buffer
      → Delta (own_dbs s) [] w w₁
      → Delta (block s.addr ∷ []) [] w w₁
  fresh_handle s w₁ zeroed d r =
      let e : own_dbs s ≡ block s.addr ∷ [] = ap (λ b. block s.addr ∷ buf_block b.buf) zeroed in
      omega (arith, d r, ap (count r) e)

  -- Where the initialisation failed, the handle is closed again: everything is given back.
  close_failed :
      (addr : ℕ) (s : DynamicBufferStream) (w₁ w₂ : World)
      → own_dbs s ≡ block addr ∷ []
      → Delta (block addr ∷ []) [] w w₁
      → Balanced w₁ w₂
      → Returns (λ _ w'. Balanced w w') (dynamic_buffer_stream_close (some s) w₂)
  close_failed addr s w₁ w₂ e d b =
      let held : Holds (own_dbs s) w₂ = λ r. omega (arith, ap (count r) e, d r, b r) in
      weaken (dynamic_buffer_stream_close-Delta s w₂ held)
        λ _ w' (_, c) r. omega (arith, ap (count r) e, d r, b r, c r)

  finish_create_init-Builds :
      (addr : ℕ) {st : DynamicBufferStreamStatus} {s : DynamicBufferStream} (w₁ : World)
      {w₂ : World}
      → Delta (block addr ∷ []) [] w w₁
      → Initialised default_cap addr w₁ st s w₂
      → Returns
          (Builds DynamicBufferStreamStatus.ok own_dbs (Ready default_cap) w)
          (finish_create_init (st, s) w₂)
  unfolding finish_create_init
  finish_create_init-Builds addr w₁ d (ready r e) = returns (built r (λ x. omega (arith, d x, e x)))
  finish_create_init-Builds addr w₁ d (no_storage {s} {w' = w₂} e b) =
      bind (close_failed addr s w₁ w₂ e d b) λ _ w' c. returns (failed (cc) c)

  finish_ctor-Builds :
      (addr : ℕ) {st : DynamicBufferStreamStatus} {s : DynamicBufferStream} (w₁ : World)
      {w₂ : World}
      → Delta (block addr ∷ []) [] w w₁
      → Initialised default_cap addr w₁ st s w₂
      → Returns (Builds StreamStatus.ok own_dbs (Ready default_cap) w) (finish_ctor (st, s) w₂)
  unfolding finish_ctor dynamic_buffer_stream_status_to_stream_status
  finish_ctor-Builds addr w₁ d (ready r e) = returns (built r (λ x. omega (arith, d x, e x)))
  finish_ctor-Builds addr w₁ d (no_storage {s} {w' = w₂} e b) =
      bind (close_failed addr s w₁ w₂ e d b) λ _ w' c. returns (failed (cc) c)

  module _ (pos : 0 < default_cap) (bounded : default_cap ≤ size_max) where
    init_created-Builds :
        {st : DynamicBufferStreamStatus} {o : Option DynamicBufferStream} {w₁ : World}
        → Built DynamicBufferStreamStatus.ok own_dbs (λ s. s.dbuf ≡ zero_buffer) w st o w₁
        → Returns
            (Builds DynamicBufferStreamStatus.ok own_dbs (Ready default_cap) w)
            (init_created default_cap (st, o) w₁)
    unfolding init_created
    init_created-Builds (built {h = s} {w' = w₁} zeroed d) =
        bind (init-Initialised s default_cap w₁ zeroed pos bounded)
          λ (st, s') w₂ i. finish_create_init-Builds s.addr w₁ (fresh_handle s w₁ zeroed d) i
    init_created-Builds (failed ne b) = returns (failed ne b)

    -- For a positive capacity within `size_t`, `dynamic_buffer_stream_create_init` never aborts: it
    -- reports OK with an empty, well-formed handle of that capacity that owns exactly the new
    -- blocks, or another status with no handle, and then every block that it took has been given
    -- back, whichever of its allocations failed.
    pub dynamic_buffer_stream_create_init-Builds :
        Returns
          (Builds DynamicBufferStreamStatus.ok own_dbs (Ready default_cap) w)
          (dynamic_buffer_stream_create_init default_cap w)
    unfolding dynamic_buffer_stream_create_init
    dynamic_buffer_stream_create_init-Builds =
        bind (create-Builds w) λ (st, o) w₁ b. init_created-Builds b

    ctor_created-Builds :
        {st : DynamicBufferStreamStatus} {o : Option DynamicBufferStream} {w₁ : World}
        → Built DynamicBufferStreamStatus.ok own_dbs (λ s. s.dbuf ≡ zero_buffer) w st o w₁
        → Returns
            (Builds StreamStatus.ok own_dbs (Ready default_cap) w)
            (ctor_created default_cap (st, o) w₁)
    unfolding ctor_created dynamic_buffer_stream_status_to_stream_status
    ctor_created-Builds (built {h = s} {w' = w₁} zeroed d) =
        bind (init-Initialised s default_cap w₁ zeroed pos bounded)
          λ (st, s') w₂ i. finish_ctor-Builds s.addr w₁ (fresh_handle s w₁ zeroed d) i
    ctor_created-Builds (failed {st} ne b) = returns (failed (ground arith) b)

    -- The adapter's backend constructor has the same contract, in the statuses of the port.
    pub dynamic_buffer_stream_ctor-Builds :
        Returns
          (Builds StreamStatus.ok own_dbs (Ready default_cap) w)
          (dynamic_buffer_stream_ctor default_cap w)
    unfolding dynamic_buffer_stream_ctor
    dynamic_buffer_stream_ctor-Builds = bind (create-Builds w) λ (st, o) w₁ b. ctor_created-Builds b

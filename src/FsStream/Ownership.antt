-- ===== src/FsStream/Ownership.antt =====
-- What construction and release of file backends do to the heap and to the open files
-- (fs_stream_cr.c).
use lex_leo.Prelude.{
  ℕ, ◌≡◌, ◌≢◌, refl, ap, true, Option, none, some, List, [], ◌∷◌, arith, Bool-cases, inl, inr,
}
use lex_leo.Status.{
  StreamStatus, OsalFileStatus, FsStreamStatus, fs_stream_status_from_osal_file_status,
  fs_stream_status_to_stream_status,
}
use lex_leo.Memory.{Resource, World, block, file}
use lex_leo.Memory.Balance.{
  Returns, returns, bind, weaken, Delta, Balanced, Holds, count, Built, built, failed, Builds,
  unit_self, Allocated, fresh, exhausted, calloc-Allocated, free-held, close_file-Delta, Opened,
  opened_ok, not_opened, open_file-Opened,
}
use lex_leo.FsStream.{
  FsStream, close_handle, new_handle, supported_mode, valid_path, opened, finish_create_init,
  init_created, finish_ctor, ctor_created, fs_stream_close, fs_stream_create,
  fs_stream_complete_default_init, fs_stream_create_init, fs_stream_ctor,
}

abbrev pub file_handle : Option ℕ → List Resource
file_handle none = []
file_handle (some f) = file f ∷ []

abbrev pub own_fs : FsStream → List Resource
own_fs s = block s.addr ∷ file_handle s.file

close_handle_lem :
    (f : Option ℕ) (p : ℕ) (w : World)
    → Holds (block p ∷ file_handle f) w
    → Returns (λ _ w'. Delta [] (file_handle f) w w' × Holds (block p ∷ []) w') (close_handle f w)
unfolding close_handle
close_handle_lem none p w h = returns (λ r. refl, h)
close_handle_lem (some f) p w h =
    bind (close_file-Delta f w (omega (arith, h (file f), unit_self (file f))))
      λ st w' d. returns (d, λ r. omega (arith, h r, d r))

-- Closing a file backend that owns its resources never aborts, and ends the holding of exactly the open
-- file, if there is one, and the handle, whatever status the operating system reports.
pub fs_stream_close-Delta :
    (s : FsStream) (w : World)
    → Holds (own_fs s) w
    → Returns (λ st w'. Delta [] (own_fs s) w w') (fs_stream_close s w)
unfolding fs_stream_close
fs_stream_close-Delta s w h = bind (close_handle_lem s.file s.addr w h) λ st w₁ (d₁, h₁).
    bind (free-held s.addr [] w₁ h₁) λ _ w₂ (d₂, h₂). returns (λ r. omega (arith, d₁ r, d₂ r))

create-Builds :
    (w : World)
    → Returns (Builds FsStreamStatus.ok own_fs (λ s. s.file ≡ none) w) (fs_stream_create w)
unfolding fs_stream_create
create-Builds w = bind (calloc-Allocated w) λ o w' a. go a
  where
    go :
        {o : Option ℕ} {w' : World}
        → Allocated w o w'
        → Returns (Builds FsStreamStatus.ok own_fs (λ s. s.file ≡ none) w) (new_handle o w')
    go (fresh p d) = returns (built refl d)
    go (exhausted b) = returns (failed (cc) b)

abbrev pub HasFile : FsStream → Type 0
HasFile s = (f : ℕ) × (s.file ≡ some f)

-- The outcome of the initialisation of a fresh handle.
data Initialised (s : FsStream) (w : World) : FsStreamStatus → FsStream → World → Type 0 where
  has_file :
      {s' : FsStream} {w' : World}
      → HasFile s'
      → Delta (own_fs s') (own_fs s) w w'
      → Initialised s w FsStreamStatus.ok s' w'
  no_file :
      {st : FsStreamStatus} {w' : World}
      → st ≢ FsStreamStatus.ok
      → Balanced w w'
      → Initialised s w st s w'

not_ok :
    (st : OsalFileStatus)
    → st ≢ OsalFileStatus.ok
    → fs_stream_status_from_osal_file_status st ≢ FsStreamStatus.ok
unfolding fs_stream_status_from_osal_file_status
not_ok st ne = ground arith

to_stream-ne-ok :
    (st : FsStreamStatus)
    → st ≢ FsStreamStatus.ok
    → fs_stream_status_to_stream_status st ≢ StreamStatus.ok
unfolding fs_stream_status_to_stream_status
to_stream-ne-ok st ne = ground arith

opened-Initialised :
    (s : FsStream) (w : World)
    → s.file ≡ none
    → {st : OsalFileStatus} {o : Option ℕ} {w' : World} → Opened w st o w'
    → Returns (λ (st, s') w'. Initialised s w st s' w') (opened s (st, o) w')
unfolding opened
opened-Initialised s w unset (opened_ok f d) =
    returns (has_file (f, refl) (λ r. omega (arith, d r, ap (λ o. count r (file_handle o)) unset)))
opened-Initialised s w unset (not_opened {st} {w'} ne b) = other st s w w' ne b
  where
    other :
        (st : OsalFileStatus) (s : FsStream) (w w' : World)
        → st ≢ OsalFileStatus.ok
        → Balanced w w'
        → Returns (λ (st, s') w'. Initialised s w st s' w') (opened s (st, none) w')
    other OsalFileStatus.ok s w w' ne b = absurd (ne refl)
    other st s w w' ne b = returns (no_file (not_ok st ne) b)

init-Initialised :
    (s : FsStream) (path : Option (List ℕ)) (mode : List ℕ) (w : World)
    → s.file ≡ none
    → supported_mode mode ≡ true
    → Returns
        (λ (st, s') w'. Initialised s w st s' w')
        (fs_stream_complete_default_init s path mode w)
unfolding fs_stream_complete_default_init
init-Initialised s path mode w unset supported = rw supported (
    simp unset (elim (Bool-cases (valid_path path)) [
      | inl e ↦ rw e (bind (open_file-Opened w) λ (st, o) w' op. opened-Initialised s w unset op)
      | inr e ↦ rw e (returns (no_file (cc) (λ r. refl)))
    ]))

module _ (path : Option (List ℕ)) (mode : List ℕ) (w : World) where
  close_failed :
      (s : FsStream) (w₁ w₂ : World)
      → Delta (own_fs s) [] w w₁
      → Balanced w₁ w₂
      → Returns (λ _ w'. Balanced w w') (fs_stream_close s w₂)
  close_failed s w₁ w₂ d b =
      let held : Holds (own_fs s) w₂ = λ r. omega (arith, d r, b r) in
      weaken (fs_stream_close-Delta s w₂ held) λ _ w' c r. omega (arith, d r, b r, c r)

  finish_create_init-Builds :
      (s : FsStream) {st : FsStreamStatus} {s' : FsStream} (w₁ : World) {w₂ : World}
      → Delta (own_fs s) [] w w₁
      → Initialised s w₁ st s' w₂
      → Returns (Builds FsStreamStatus.ok own_fs HasFile w) (finish_create_init (st, s') w₂)
  unfolding finish_create_init
  finish_create_init-Builds s w₁ d (has_file h e) = returns (built h (λ x. omega (arith, d x, e x)))
  finish_create_init-Builds s w₁ d (no_file {st} {w' = w₂} ne b) = other st ne
    where
      other :
          (st : FsStreamStatus)
          → st ≢ FsStreamStatus.ok
          → Returns (Builds FsStreamStatus.ok own_fs HasFile w) (finish_create_init (st, s) w₂)
      other FsStreamStatus.ok ne = absurd (ne refl)
      other st ne = bind (close_failed s w₁ w₂ d b) λ _ w' c. returns (failed ne c)

  finish_ctor-Builds :
      (s : FsStream) {st : FsStreamStatus} {s' : FsStream} (w₁ : World) {w₂ : World}
      → Delta (own_fs s) [] w w₁
      → Initialised s w₁ st s' w₂
      → Returns (Builds StreamStatus.ok own_fs HasFile w) (finish_ctor (st, s') w₂)
  unfolding finish_ctor
  finish_ctor-Builds s w₁ d (has_file h e) = returns (built h (λ x. omega (arith, d x, e x)))
  finish_ctor-Builds s w₁ d (no_file {st} {w' = w₂} ne b) = other st ne
    where
      other :
          (st : FsStreamStatus)
          → st ≢ FsStreamStatus.ok
          → Returns (Builds StreamStatus.ok own_fs HasFile w) (finish_ctor (st, s) w₂)
      other FsStreamStatus.ok ne = absurd (ne refl)
      other st ne =
          bind (close_failed s w₁ w₂ d b) λ _ w' c. returns (failed (to_stream-ne-ok st ne) c)

  module _ (supported : supported_mode mode ≡ true) where
    init_created-Builds :
        {st : FsStreamStatus} {o : Option FsStream} {w₁ : World}
        → Built FsStreamStatus.ok own_fs (λ s. s.file ≡ none) w st o w₁
        → Returns (Builds FsStreamStatus.ok own_fs HasFile w) (init_created path mode (st, o) w₁)
    unfolding init_created
    init_created-Builds (built {h = s} {w' = w₁} unset d) =
        bind (init-Initialised s path mode w₁ unset supported)
          λ (st, s') w₂ i. finish_create_init-Builds s w₁ d i
    init_created-Builds (failed ne b) = returns (failed ne b)

    -- For a supported mode, `fs_stream_create_init` never aborts: it reports OK with a handle that
    -- owns exactly one new block and one newly opened file, or another status with no handle, and
    -- then nothing that it took is still held.
    pub fs_stream_create_init-Builds :
        Returns (Builds FsStreamStatus.ok own_fs HasFile w) (fs_stream_create_init path mode w)
    unfolding fs_stream_create_init
    fs_stream_create_init-Builds = bind (create-Builds w) λ (st, o) w₁ b. init_created-Builds b

    ctor_created-Builds :
        {st : FsStreamStatus} {o : Option FsStream} {w₁ : World}
        → Built FsStreamStatus.ok own_fs (λ s. s.file ≡ none) w st o w₁
        → Returns (Builds StreamStatus.ok own_fs HasFile w) (ctor_created path mode (st, o) w₁)
    unfolding ctor_created
    ctor_created-Builds (built {h = s} {w' = w₁} unset d) =
        bind (init-Initialised s path mode w₁ unset supported)
          λ (st, s') w₂ i. finish_ctor-Builds s w₁ d i
    ctor_created-Builds (failed {st} ne b) = returns (failed (to_stream-ne-ok st ne) b)

    -- The adapter's backend constructor has the same contract, in the statuses of the port.
    pub fs_stream_ctor-Builds :
        Returns (Builds StreamStatus.ok own_fs HasFile w) (fs_stream_ctor path mode w)
    unfolding fs_stream_ctor
    fs_stream_ctor-Builds = bind (create-Builds w) λ (st, o) w₁ b. ctor_created-Builds b

-- ===== src/Logger/Lifetime/Ownership.antt =====
-- What construction and release of loggers do to the heap (logger_default_cr.c, logger_cr.c).
use lex_leo.Prelude.{ℕ, ◌≡◌, refl, Bool, Option, none, some, List, [], ◌∷◌, arith}
use lex_leo.Memory.{Resource, World, block}
use lex_leo.Memory.Balance.{
  Returns, returns, bind, Delta, Holds, Built, built, failed, Builds, Allocated, fresh, exhausted,
  calloc-Allocated, free-held,
}
use lex_leo.Logger.{LoggerStatus}
use lex_leo.Logger.Lifetime.{
  LoggerDefaultStatus, LoggerDefault, Logger, new_default, logger_default_create,
  logger_default_complete_default_init, default_created, finish_default, logger_default_create_init,
  logger_default_destroy, new_logger, logger_create, logger_complete_default_init, logger_created,
  finish_logger, logger_create_init, destroy_backend, logger_destroy,
}

abbrev pub own_default : Option LoggerDefault → List Resource
own_default none = []
own_default (some b) = block b.addr ∷ []

abbrev pub own_logger : Logger → List Resource
own_logger l = block l.addr ∷ own_default l.backend

pub logger_default_destroy-Delta :
    (b : LoggerDefault) (w : World)
    → Holds (block b.addr ∷ []) w
    → Returns (λ _ w'. Delta [] (block b.addr ∷ []) w w') (logger_default_destroy b w)
unfolding logger_default_destroy
logger_default_destroy-Delta b w h = bind (free-held b.addr [] w h) λ _ w' (d, _). returns d

destroy_backend_lem :
    (o : Option LoggerDefault) (p : ℕ) (w : World)
    → Holds (block p ∷ own_default o) w
    → Returns
        (λ st w'. (st ≡ LoggerStatus.ok) × Delta [] (own_default o) w w' × Holds (block p ∷ []) w')
        (destroy_backend o w)
unfolding destroy_backend logger_default_destroy
destroy_backend_lem none p w h = returns (refl, λ r. refl, h)
destroy_backend_lem (some b) p w h =
    bind (free-held b.addr (block p ∷ []) w (λ r. omega (arith, h r)))
      λ _ w' (d, h'). returns (refl, d, h')

-- Destroying a logger that owns its blocks never aborts, reports OK, and gives back exactly its
-- handle and the backend, if it has one; the stream it borrows is not touched.
pub logger_destroy-Delta :
    (l : Logger) (w : World)
    → Holds (own_logger l) w
    → Returns
        (λ st w'. (st ≡ LoggerStatus.ok) × Delta [] (own_logger l) w w')
        (logger_destroy (some l) w)
unfolding logger_destroy
logger_destroy-Delta l w h = bind (destroy_backend_lem l.backend l.addr w h) λ st w₁ (e, d₁, h₁).
    bind (free-held l.addr [] w₁ h₁) λ _ w₂ (d₂, _). returns (e, λ r. omega (arith, d₁ r, d₂ r))

module _ (append_newline : Bool) (w : World) where
  new_default-Builds :
      {o : Option ℕ} {w' : World}
      → Allocated w o w'
      → Returns
          (Builds LoggerDefaultStatus.ok (λ l. block l.addr ∷ []) (λ l. Unit {0}) w)
          (new_default o w')
  unfolding new_default
  new_default-Builds (fresh p d) = returns (built tt d)
  new_default-Builds (exhausted b) = returns (failed (cc) b)

  default_created-Builds :
      {st : LoggerDefaultStatus} {o : Option LoggerDefault} {w' : World}
      → Built LoggerDefaultStatus.ok (λ l. block l.addr ∷ []) (λ l. Unit {0}) w st o w'
      → Returns
          (Builds LoggerDefaultStatus.ok
            (λ l. block l.addr ∷ [])
            (λ l. l.append_newline ≡ append_newline)
            w)
          (default_created append_newline (st, o) w')
  unfolding default_created finish_default logger_default_complete_default_init
  default_created-Builds (built p d) = returns (built refl d)
  default_created-Builds (failed ne b) = returns (failed ne b)

  -- `logger_default_create_init` never aborts: on OK the handle has the configured end of the line
  -- and owns one new block, and on any other status nothing is held.
  pub logger_default_create_init-Builds :
      Returns
        (Builds LoggerDefaultStatus.ok
          (λ l. block l.addr ∷ [])
          (λ l. l.append_newline ≡ append_newline)
          w)
        (logger_default_create_init append_newline w)
  unfolding logger_default_create_init logger_default_create
  logger_default_create_init-Builds =
      bind (bind (calloc-Allocated w) λ o w' a. new_default-Builds a)
        λ (st, o) w' b. default_created-Builds b

module _ (b : LoggerDefault) (w : World) where
  new_logger-Builds :
      {o : Option ℕ} {w' : World}
      → Allocated w o w'
      → Returns
          (Builds LoggerStatus.ok (λ l. block l.addr ∷ []) (λ l. l.backend ≡ none) w)
          (new_logger o w')
  unfolding new_logger
  new_logger-Builds (fresh p d) = returns (built refl d)
  new_logger-Builds (exhausted e) = returns (failed (cc) e)

  logger_created-Builds :
      {st : LoggerStatus} {o : Option Logger} {w' : World}
      → Built LoggerStatus.ok (λ l. block l.addr ∷ []) (λ l. l.backend ≡ none) w st o w'
      → Returns
          (Builds LoggerStatus.ok (λ l. block l.addr ∷ []) (λ l. l.backend ≡ some b) w)
          (logger_created (some b) (st, o) w')
  unfolding logger_created finish_logger logger_complete_default_init
  logger_created-Builds (built unset d) = simp unset (returns (built refl d))
  logger_created-Builds (failed ne e) = returns (failed ne e)

  -- `logger_create_init` with a backend never aborts: on OK the logger holds that backend and only
  -- its own block is new, and on any other status nothing has changed, so that the backend is still
  -- the caller's to destroy.
  pub logger_create_init-Builds :
      Returns
        (Builds LoggerStatus.ok (λ l. block l.addr ∷ []) (λ l. l.backend ≡ some b) w)
        (logger_create_init (some b) w)
  unfolding logger_create_init logger_create
  logger_create_init-Builds =
      bind (bind (calloc-Allocated w) λ o w' a. new_logger-Builds a)
        λ (st, o) w' c. logger_created-Builds c

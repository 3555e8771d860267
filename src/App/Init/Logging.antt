-- ===== src/App/Init/Logging.antt =====
-- The logger in lexleo_app_complete_default_init.
use lex_leo.Prelude.{ℕ, ◌+◌, ◌≡◌, ◌≢◌, refl, true, Option, none, some, List, [], ◌∷◌, arith}
use lex_leo.Memory.{World, block, unit}
use lex_leo.Memory.Balance.{Returns, returns, bind, Built, built, failed}
use lex_leo.Memory.Release.{Owning}
use lex_leo.Stream.{Stream}
use lex_leo.Logger.{LoggerStatus}
use lex_leo.Logger.Lifetime.{LoggerDefaultStatus, LoggerDefault, Logger}
use lex_leo.Logger.Lifetime.Ownership.{
  logger_default_destroy-Delta, logger_default_create_init-Builds, logger_create_init-Builds,
}
use lex_leo.App.{LexleoAppIoKind, LexleoAppCfg, LexleoApp}
use lex_leo.App.Release.{owned}
use lex_leo.App.Streams.{Slot}
use lex_leo.App.Streams.Ownership.{StreamServes}
use lex_leo.App.Init.{
  and_ok, from_owner, logger_made, default_logger_made, fill_logger, from_logger,
}
use lex_leo.App.Init.Outcome.{IsLogPath, in_part, staged}
use lex_leo.App.Init.Machine.{Results, then_ok, from_owner_lem}

module _ (cfg : LexleoAppCfg) (w : World) where
  module _ (a b : ℕ) (i o e ls : Stream) (path : List ℕ)
      (i-serves : StreamServes Slot.input cfg.input.kind i)
      (o-serves : StreamServes Slot.output cfg.output.kind o)
      (e-serves : StreamServes Slot.err cfg.err.kind e) (path-good : IsLogPath path)
      (ls-serves : StreamServes Slot.logger_stream LexleoAppIoKind.file ls) where
    abbrev before_logger : LexleoApp
    before_logger = staged cfg a b (some i) (some o) (some e) path (some ls) none

    logger_made_lem :
        (backend : LoggerDefault) (w₁ : World)
        → backend.append_newline ≡ true
        → Owning w (λ r. owned before_logger r + unit (block backend.addr) r) w₁
        → {st : LoggerStatus} {l : Option Logger} {w₂ : World}
        → Built LoggerStatus.ok (λ l. block l.addr ∷ []) (λ l. l.backend ≡ some backend) w₁ st l w₂
        → Returns
            (λ res w'. Returns (Results cfg w) (and_ok from_owner res w'))
            (logger_made before_logger backend (st, l) w₂)
    unfolding logger_made and_ok
    logger_made_lem backend w₁ ends d (built {h = l} {w' = w₂} over d₂) = returns (
        from_owner_lem cfg w a b i o e ls path l i-serves o-serves e-serves path-good ls-serves
          (l, refl, backend, over, ends) w₂ (λ r. rw over (omega (arith, d r, d₂ r))))
    logger_made_lem backend w₁ ends d (failed {st} {w' = w₂} ne bal) = other st ne
      where
        other :
            (st : LoggerStatus)
            → st ≢ LoggerStatus.ok
            → Returns
                (λ res w'. Returns (Results cfg w) (and_ok from_owner res w'))
                (logger_made before_logger backend (st, none) w₂)
        other LoggerStatus.ok ne = absurd (ne refl)
        other _ ne =
            bind (logger_default_destroy-Delta backend w₂ (λ r. omega (arith, d r, bal r)))
              λ _ w₃ d₃. returns (returns (in_part (cc) (λ r. omega (arith, d r, bal r, d₃ r))))

    default_logger_made_lem :
        (w₁ : World)
        → Owning w (owned before_logger) w₁
        → {st : LoggerDefaultStatus} {l : Option LoggerDefault} {w₂ : World}
        → Built LoggerDefaultStatus.ok
            (λ l. block l.addr ∷ [])
            (λ l. l.append_newline ≡ true)
            w₁
            st
            l
            w₂
        → Returns
            (λ res w'. Returns (Results cfg w) (and_ok from_owner res w'))
            (default_logger_made before_logger (st, l) w₂)
    unfolding default_logger_made and_ok
    default_logger_made_lem w₁ d (built {h = backend} {w' = w₂} ends d₂) =
        bind (logger_create_init-Builds backend w₂)
          λ (st, l) w₃ c. logger_made_lem backend w₂ ends (λ r. omega (arith, d r, d₂ r)) c
    default_logger_made_lem w₁ d (failed {st} {w' = w₂} ne bal) = other st ne
      where
        other :
            (st : LoggerDefaultStatus)
            → st ≢ LoggerDefaultStatus.ok
            → Returns
                (λ res w'. Returns (Results cfg w) (and_ok from_owner res w'))
                (default_logger_made before_logger (st, none) w₂)
        other LoggerDefaultStatus.ok ne = absurd (ne refl)
        other _ ne = returns (returns (in_part (cc) (λ r. omega (arith, d r, bal r))))

    pub from_logger_lem :
        (w₁ : World)
        → Owning w (owned before_logger) w₁
        → Returns (Results cfg w) (from_logger before_logger w₁)
    unfolding from_logger fill_logger
    from_logger_lem w₁ d = then_ok cfg w from_owner (
        bind (logger_default_create_init-Builds true w₁)
          λ (st, l) w₂ c. default_logger_made_lem w₁ d c)

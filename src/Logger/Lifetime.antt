-- ===== src/Logger/Lifetime.antt =====
-- Construction and release of loggers: logger_default_cr.c, and logger_cr.c and logger_borrower.c
-- of the port (src/foundation/logger_new). The stream that a logger borrows is not in its handle.
pub mod Ownership
pub mod OverFile
use lex_leo.Prelude.{ℕ, Bool, true, false, not, Option, none, some, List, is_some, if◌then◌else◌}
use lex_leo.Memory.{M, pure, fail, ◌>>=◌, ◌>>◌, assert, calloc, free}
use lex_leo.FsStream.{FileOps}
use lex_leo.StdioStream.{StdioOps}
use lex_leo.Stream.{Stream}
use lex_leo.UtcTimestamp.{ℤ}
use lex_leo.Logger.{LoggerStatus, OsalTimeStatus, logger_default_log}

pub data LoggerDefaultStatus : Type 0 where
  ok oom io_error : LoggerDefaultStatus

pub record LoggerDefault : Type 0 where
  pub addr : ℕ
  pub append_newline : Bool

pub record Logger : Type 0 where
  pub addr : ℕ
  pub backend : Option LoggerDefault

-- `calloc` leaves `append_newline` false.
new_default : Option ℕ → M (LoggerDefaultStatus × Option LoggerDefault)
new_default none = pure (LoggerDefaultStatus.oom, none)
new_default (some p) =
    pure (LoggerDefaultStatus.ok, some (record { addr = p; append_newline = false }))

unfoldable pub logger_default_create : M (LoggerDefaultStatus × Option LoggerDefault)
unfolding new_default
logger_default_create = calloc >>= new_default

unfoldable pub logger_default_complete_default_init :
    LoggerDefault → (append_newline : Bool) → LoggerDefaultStatus × LoggerDefault
logger_default_complete_default_init l append_newline =
    (LoggerDefaultStatus.ok, record l { append_newline = append_newline })

unfoldable pub logger_default_destroy : LoggerDefault → M LoggerStatus
logger_default_destroy l = do free l.addr; pure LoggerStatus.ok

finish_default :
    LoggerDefaultStatus × LoggerDefault → M (LoggerDefaultStatus × Option LoggerDefault)
finish_default (LoggerDefaultStatus.ok, l) = pure (LoggerDefaultStatus.ok, some l)
finish_default (st, l) = do logger_default_destroy l; pure (st, none)

default_created :
    Bool
    → LoggerDefaultStatus × Option LoggerDefault
    → M (LoggerDefaultStatus × Option LoggerDefault)
unfolding finish_default
default_created append_newline (st, none) = pure (st, none)
default_created append_newline (st, some l) =
    finish_default (logger_default_complete_default_init l append_newline)

unfoldable pub logger_default_create_init :
    (append_newline : Bool) → M (LoggerDefaultStatus × Option LoggerDefault)
unfolding default_created
logger_default_create_init append_newline = logger_default_create >>= default_created append_newline

new_logger : Option ℕ → M (LoggerStatus × Option Logger)
new_logger none = pure (LoggerStatus.oom, none)
new_logger (some p) = pure (LoggerStatus.ok, some (record { addr = p; backend = none }))

unfoldable pub logger_create : M (LoggerStatus × Option Logger)
unfolding new_logger
logger_create = calloc >>= new_logger

unfoldable pub logger_complete_default_init :
    Logger → Option LoggerDefault → M (LoggerStatus × Logger)
logger_complete_default_init l backend =
    if is_some l.backend
    then (do assert (not (is_some backend)); pure (LoggerStatus.ok, l))
    else do assert (is_some backend); pure (LoggerStatus.ok, record l { backend = backend })

destroy_backend : Option LoggerDefault → M LoggerStatus
destroy_backend none = pure LoggerStatus.ok
destroy_backend (some b) = logger_default_destroy b

unfoldable pub logger_destroy : Option Logger → M LoggerStatus
unfolding destroy_backend
logger_destroy none = pure LoggerStatus.ok
logger_destroy (some l) = do
  logger_status ← destroy_backend l.backend
  free l.addr
  pure logger_status

finish_logger : LoggerStatus × Logger → M (LoggerStatus × Option Logger)
finish_logger (LoggerStatus.ok, l) = pure (LoggerStatus.ok, some l)
finish_logger (st, l) = do logger_destroy (some l); pure (st, none)

logger_created :
    Option LoggerDefault → LoggerStatus × Option Logger → M (LoggerStatus × Option Logger)
unfolding finish_logger
logger_created backend (st, none) = pure (st, none)
logger_created backend (st, some l) = logger_complete_default_init l backend >>= finish_logger

unfoldable pub logger_create_init : Option LoggerDefault → M (LoggerStatus × Option Logger)
unfolding logger_created
logger_create_init backend = logger_create >>= logger_created backend

module _ (file_ops : FileOps) (stdio_ops : StdioOps) where
  log_to :
      (now : OsalTimeStatus × ℤ)
      → Option LoggerDefault
      → List ℕ
      → Stream
      → M (LoggerStatus × Option Stream)
  log_to now none message s = fail
  log_to now (some b) message s =
      logger_default_log file_ops stdio_ops now b.append_newline (some message) s

  -- `s` is the stream that the backend borrows.
  unfoldable pub logger_log :
      (now : OsalTimeStatus × ℤ)
      → Option Logger
      → Option (List ℕ)
      → Stream
      → M (LoggerStatus × Option Stream)
  unfolding log_to
  logger_log now (some l) (some message) s = log_to now l.backend message s
  logger_log now l message s = pure (LoggerStatus.invalid, some s)

-- ===== src/App/Run.antt =====
-- Running the application (lexleo_app_borrower.c), and the command line's entry point (cli_main of
-- src/frontend/cli/src/cli.c). The file and standard I/O operations and what `time_ops->now` reports
-- at the two messages are arguments.
pub mod Whole
use lex_leo.Prelude.{ℕ, Bool, true, false, Option, none, some, List, codes}
use lex_leo.Status.{OsalFileStatus}
use lex_leo.Memory.{M, pure, fail, ◌>>=◌, ◌>>◌}
use lex_leo.FsStream.{FileOps}
use lex_leo.StdioStream.{StdioOps}
use lex_leo.Stream.{Stream}
use lex_leo.UtcTimestamp.{ℤ}
use lex_leo.Logger.{LoggerStatus, OsalTimeStatus}
use lex_leo.Logger.Lifetime.{Logger, logger_log}
use lex_leo.Vm.{LexleoVmStatus, LexleoVm, lexleo_vm_run}
use lex_leo.App.{LexleoApp, lexleo_app_default_cfg, lexleo_app_destroy}
use lex_leo.App.Init.{lexleo_app_create_init}

pub data LexleoAppStatus : Type 0 where
  ok logger_error vm_error : LexleoAppStatus

module _ (file_ops : FileOps) (stdio_ops : StdioOps) (started ended : OsalTimeStatus × ℤ) where
  -- A message through the logger, whose borrowed stream is the application's.
  logged : LexleoApp → LoggerStatus × Option Stream → M (LoggerStatus × LexleoApp)
  logged app (st, s) = pure (st, record app { logger_stream = s })

  log_to : OsalTimeStatus × ℤ → LexleoApp → Option Stream → List ℕ → M (LoggerStatus × LexleoApp)
  unfolding logged
  log_to now app none message = fail
  log_to now app (some s) message =
      logger_log file_ops stdio_ops now app.logger (some message) s >>= logged app

  stopped : LoggerStatus × LexleoApp → M (LexleoAppStatus × LexleoApp)
  stopped (LoggerStatus.ok, app) = pure (LexleoAppStatus.ok, app)
  stopped (st, app) = pure (LexleoAppStatus.logger_error, app)

  vm_returned : LexleoApp → LexleoVmStatus → M (LexleoAppStatus × LexleoApp)
  unfolding log_to stopped
  vm_returned app LexleoVmStatus.ok =
      log_to ended app app.logger_stream (codes "LexLeo application shutting down.") >>= stopped
  vm_returned app st = pure (LexleoAppStatus.vm_error, app)

  run_vm : LexleoApp → Option LexleoVm → M (LexleoAppStatus × LexleoApp)
  unfolding vm_returned
  run_vm app none = fail
  run_vm app (some vm) = vm_returned app (lexleo_vm_run vm)

  start_logged : LoggerStatus × LexleoApp → M (LexleoAppStatus × LexleoApp)
  unfolding run_vm
  start_logged (LoggerStatus.ok, app) = run_vm app app.vm
  start_logged (st, app) = pure (LexleoAppStatus.logger_error, app)

  unfoldable pub lexleo_app_run : LexleoApp → M (LexleoAppStatus × LexleoApp)
  unfolding start_logged
  lexleo_app_run app =
      log_to started app app.logger_stream (codes "LexLeo application started.") >>= start_logged

  -- The exit status, as whether it is EXIT_SUCCESS.
  ran : LexleoAppStatus × LexleoApp → M Bool
  ran (LexleoAppStatus.ok, app) = do lexleo_app_destroy (some app); pure true
  ran (st, app) = do lexleo_app_destroy (some app); pure false

  run_created : Option LexleoApp → M Bool
  unfolding ran
  run_created none = pure false
  run_created (some app) = lexleo_app_run app >>= ran

  unfoldable pub cli_main :
      (lines : List (List ℕ × OsalFileStatus)) (home : Option (List ℕ)) → M Bool
  unfolding run_created
  cli_main lines home = lexleo_app_create_init lexleo_app_default_cfg lines home >>= run_created

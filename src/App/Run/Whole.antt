-- ===== src/App/Run/Whole.antt =====
-- What a run of the whole program does to the heap and the open files.
use lex_leo.Prelude.{ℕ, ◌≡◌, ◌≢◌, refl, sym, ap, ◌∙◌, Option, none, some, List, [], arith, codes}
use mathlib.Core.Path.{subst}
use lex_leo.Status.{OsalFileStatus}
use lex_leo.Memory.{World}
use lex_leo.Memory.Balance.{Returns, returns, bind, weaken, Balanced, Settles, Delta-Settles}
use lex_leo.Memory.Release.{Owning}
use lex_leo.FsStream.{FileOps}
use lex_leo.FsStream.Neutral.{Neutral}
use lex_leo.StdioStream.{StdioOps}
use lex_leo.Stream.{dynamic_buffer, fs, stdio, Stream}
use lex_leo.Stream.OverFile.{OverFile}
use lex_leo.UtcTimestamp.{ℤ}
use lex_leo.Logger.{LoggerStatus, OsalTimeStatus, prefix_text}
use lex_leo.Logger.Lifetime.{LoggerDefault, Logger, logger_log}
use lex_leo.Logger.Lifetime.OverFile.{Kept, logger_log-Kept}
use lex_leo.Vm.{LexleoVm, lexleo_vm_run}
use lex_leo.App.{
  LexleoAppIoKind, LexleoAppCfg, LexleoApp, lexleo_app_default_cfg, lexleo_app_supported_cfg,
  lexleo_app_supported_io_cfg, lexleo_app_supported_action,
}
use lex_leo.App.Release.{owned, lexleo_app_destroy-Frees}
use lex_leo.App.Streams.{Slot}
use lex_leo.App.Streams.Ownership.{StreamServes}
use lex_leo.App.Init.Outcome.{HasStream, HasLogger, Complete}
use lex_leo.App.Init.Creation.{AppCreated, app_created, no_app, lexleo_app_create_init-AppCreated}
use lex_leo.App.Run.{
  LexleoAppStatus, logged, log_to, stopped, vm_returned, run_vm, start_logged, lexleo_app_run, ran,
  run_created, cli_main,
}

-- What the configuration opens for the logger is a file.
serves-OverFile : (s : Stream) → StreamServes Slot.logger_stream LexleoAppIoKind.file s → OverFile s
serves-OverFile s (fs b, over, (f, opened)) = record {
  backend = b;
  file = f;
  over = over;
  opened = opened;
}
serves-OverFile s (dynamic_buffer _, over, x) = absurd x
serves-OverFile s (stdio _, over, x) = absurd x

module _ (file_ops : FileOps) (stdio_ops : StdioOps) (started ended : OsalTimeStatus × ℤ)
    (neutral : Neutral file_ops) (start_defined : prefix_text started ≢ none)
    (end_defined : prefix_text ended ≢ none) where
  module _ (cfg : LexleoAppCfg) (app : LexleoApp) (good : Complete cfg app) where
    -- The application is as before, and nothing was taken or given back since `w`.
    abbrev Unchanged : {S : Type 0} → World → S × LexleoApp → World → Type 0
    Unchanged w (st, app') w' = (app' ≡ app) × Balanced w w'

    log_over :
        (now : OsalTimeStatus × ℤ) (message : List ℕ) (w : World)
        → prefix_text now ≢ none
        → (o : Option Stream) → HasStream Slot.logger_stream LexleoAppIoKind.file o
        → HasLogger app.logger
        → app.logger_stream ≡ o
        → Returns (Unchanged w) (log_to file_ops stdio_ops started ended now app o message w)
    unfolding log_to logged
    log_over now message w defined none (s, has_s, serves) has e = absurd (cc)
    log_over now message w defined (some t) (s, has_s, serves) (l, has_l, b, has_b, _) e =
        let same : t ≡ s = cc in
        let over = subst OverFile (sym same) (serves-OverFile s serves) in
        bind (logs app.logger l b has_l has_b over) λ (st, o) w' (kept, bal).
          returns (ap (λ x. record app { logger_stream = x }) (kept ∙ sym e), bal)
      where
        logs :
            (o : Option Logger) (l : Logger) (b : LoggerDefault)
            → o ≡ some l
            → l.backend ≡ some b
            → (over : OverFile t)
            → Returns
                (Kept file_ops stdio_ops neutral t over w)
                (logger_log file_ops stdio_ops now o (some message) t w)
        logs o l b has_l has_b over =
            rw has_l
              (logger_log-Kept file_ops stdio_ops neutral t over w now defined l b message has_b)

    log_to-Unchanged :
        (now : OsalTimeStatus × ℤ) (message : List ℕ) (w : World)
        → prefix_text now ≢ none
        → Returns
            (Unchanged w)
            (log_to file_ops stdio_ops started ended now app app.logger_stream message w)
    log_to-Unchanged now message w defined =
        log_over now message w defined app.logger_stream good.logger_stream good.logger refl

    stopped-Unchanged :
        (w : World) (st : LoggerStatus) (app' : LexleoApp) (w' : World)
        → app' ≡ app
        → Balanced w w'
        → Returns (Unchanged w) (stopped file_ops stdio_ops started ended (st, app') w')
    unfolding stopped
    stopped-Unchanged w LoggerStatus.ok app' w' e bal = returns (e, bal)
    stopped-Unchanged w _ app' w' e bal = returns (e, bal)

    run_vm-Unchanged :
        (w w₁ : World) (vm : LexleoVm) (o : Option LexleoVm)
        → o ≡ some vm
        → Balanced w w₁
        → Returns (Unchanged w) (run_vm file_ops stdio_ops started ended app o w₁)
    unfolding run_vm vm_returned lexleo_vm_run
    run_vm-Unchanged w w₁ vm o has_vm bal = rw has_vm (
        bind (log_to-Unchanged ended (codes "LexLeo application shutting down.") w₁ end_defined)
          λ (st, app') w₂ (e, bal₂).
            stopped-Unchanged w st app' w₂ e (λ r. omega (arith, bal r, bal₂ r)))

    start_logged-Unchanged :
        (w : World) (st : LoggerStatus) (app' : LexleoApp) (w₁ : World)
        → app' ≡ app
        → Balanced w w₁
        → Returns (Unchanged w) (start_logged file_ops stdio_ops started ended (st, app') w₁)
    unfolding start_logged
    start_logged-Unchanged w LoggerStatus.ok app' w₁ e bal =
        rw e (run_vm-Unchanged w w₁ good.vm.0 app.vm good.vm.1 bal)
    start_logged-Unchanged w _ app' w₁ e bal = returns (e, bal)

    -- A complete application runs without an abort, whatever its messages and its machine report, and
    -- is as it was before; nothing is taken or given back.
    lexleo_app_run-Unchanged :
        (w : World) → Returns (Unchanged w) (lexleo_app_run file_ops stdio_ops started ended app w)
    unfolding lexleo_app_run
    lexleo_app_run-Unchanged w =
        bind (log_to-Unchanged started (codes "LexLeo application started.") w start_defined)
          λ (st, app') w₁ (e, bal). start_logged-Unchanged w st app' w₁ e bal

  ran-Balanced :
      (w : World) (st : LexleoAppStatus) (app : LexleoApp) (w₁ : World)
      → Owning w (owned app) w₁
      → Returns (λ _ w'. Balanced w w') (ran file_ops stdio_ops started ended (st, app) w₁)
  unfolding ran
  ran-Balanced w LexleoAppStatus.ok app w₁ d =
      bind (lexleo_app_destroy-Frees app w₁ (λ r. omega (arith, d r)))
        λ _ w₂ e. returns (λ r. omega (arith, d r, e r))
  ran-Balanced w _ app w₁ d =
      bind (lexleo_app_destroy-Frees app w₁ (λ r. omega (arith, d r)))
        λ _ w₂ e. returns (λ r. omega (arith, d r, e r))

  run_created-Settles :
      {cfg : LexleoAppCfg} {w : World} {o : Option LexleoApp} {w₁ : World}
      → AppCreated cfg w o w₁
      → Returns (λ _ w'. Settles [] [] w w') (run_created file_ops stdio_ops started ended o w₁)
  unfolding run_created
  run_created-Settles {cfg} {w} (app_created {app} {w' = w₁} good d) =
      bind (lexleo_app_run-Unchanged cfg app good w₁) λ (st, app') w₂ (same, bal). rw same (
        weaken (ran-Balanced w st app w₂ (λ r. omega (arith, d r, bal r)))
          (λ _ w' e. Delta-Settles [] [] w w' e))
  run_created-Settles (no_app bal) = returns bal

  -- The whole program never aborts and ends with every block that it took released and every file that
  -- it opened closed, but for the OSAL_FILE block of each close that failed, which stays allocated,
  -- whatever the allocator, the file system, the configuration file and `HOME` answer, where writing
  -- and flushing a file only return, and the times of the two messages have a defined conversion.
  pub cli_main-Settles :
      (lines : List (List ℕ × OsalFileStatus)) (home : Option (List ℕ)) (w : World)
      → Returns
          (λ _ w'. Settles [] [] w w')
          (cli_main file_ops stdio_ops started ended lines home w)
  unfolding cli_main lexleo_app_default_cfg lexleo_app_supported_cfg lexleo_app_supported_io_cfg
      lexleo_app_supported_action
  cli_main-Settles lines home w =
      bind (lexleo_app_create_init-AppCreated lexleo_app_default_cfg lines home w refl)
        λ o w₁ c. run_created-Settles c

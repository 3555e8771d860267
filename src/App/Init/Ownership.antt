-- ===== src/App/Init/Ownership.antt =====
-- What the initialisation of the application's handle yields and holds.
use lex_leo.Prelude.{ℕ, ◌≡◌, true, Option, none, some, List, [], ◌∷◌, arith}
use lex_leo.Status.{OsalFileStatus}
use lex_leo.Memory.{World}
use lex_leo.Memory.Balance.{Returns, returns, bind}
use lex_leo.Memory.Release.{Owning}
use lex_leo.FsStream.{supported_mode}
use lex_leo.Stream.{Stream}
use lex_leo.Stream.Ownership.{own_stream}
use lex_leo.LogPath.Bounds.{Resolved, resolved, unresolved, lexleo_app_resolve_log_path-Resolved}
use lex_leo.App.{
  LexleoAppIoKind, LexleoAppCfg, new_app, lexleo_app_supported_io_cfg, lexleo_app_supported_cfg,
  nonempty, supported_file_mode,
}
use lex_leo.App.Release.{owned}
use lex_leo.App.Streams.{Slot}
use lex_leo.App.Streams.Ownership.{StreamServes, Made, made, not_made, lexleo_app_init_stream-Made}
use lex_leo.App.Init.{
  owner_consistent, and_ok, from_logger, logger_stream_made, logger_stream_cfg, fill_logger_stream,
  from_logger_stream, log_path_resolved, fill_log_path, from_log_path, err_made, fill_err, from_err,
  output_made, fill_output, from_output, input_made, fill_input, lexleo_app_complete_default_init,
}
use lex_leo.App.Init.Outcome.{IsLogPath, Initialised, in_part, staged}
use lex_leo.App.Init.Machine.{Results, then_ok}
use lex_leo.App.Init.Logging.{from_logger_lem}
use lex_leo.LogPath.{parent_dirs}
use lex_leo.LogPath.Bounds.{parent_dirs-nil}

-- A path with parent directories is one that a file stream accepts.
logger_stream_cfg_lem :
    (path : List ℕ) (dirs : List (List ℕ))
    → parent_dirs path ≡ some dirs
    → lexleo_app_supported_io_cfg (logger_stream_cfg path) ≡ true
unfolding lexleo_app_supported_io_cfg nonempty supported_file_mode supported_mode
logger_stream_cfg_lem [] dirs h = cc (parent_dirs-nil)
logger_stream_cfg_lem (c ∷ cs) dirs h = ground arith

supported_streams :
    (cfg : LexleoAppCfg)
    → lexleo_app_supported_cfg cfg ≡ true
    → (lexleo_app_supported_io_cfg cfg.input ≡ true)
      × (lexleo_app_supported_io_cfg cfg.output ≡ true)
      × (lexleo_app_supported_io_cfg cfg.err ≡ true)
unfolding lexleo_app_supported_cfg
supported_streams cfg h = (ground arith, ground arith, ground arith)

module _ (cfg : LexleoAppCfg) (w : World) where
  module _ (a b : ℕ) (i o e : Stream) (i-serves : StreamServes Slot.input cfg.input.kind i)
      (o-serves : StreamServes Slot.output cfg.output.kind o)
      (e-serves : StreamServes Slot.err cfg.err.kind e) where
    logger_stream_made_lem :
        (path : List ℕ) (w₁ : World)
        → IsLogPath path
        → Owning w (owned (staged cfg a b (some i) (some o) (some e) path none none)) w₁
        → {ls : Option Stream} {w₂ : World}
        → Made own_stream (StreamServes Slot.logger_stream LexleoAppIoKind.file) w₁ ls w₂
        → Returns (Results cfg w) (
            and_ok from_logger
              (logger_stream_made (staged cfg a b (some i) (some o) (some e) path none none) ls)
              w₂)
    unfolding logger_stream_made and_ok
    logger_stream_made_lem path w₁ good d (made {h = ls} {w' = w₂} serves d₂) =
        from_logger_lem cfg w a b i o e ls path i-serves o-serves e-serves good serves w₂
          (λ r. omega (arith, d r, d₂ r))
    logger_stream_made_lem path w₁ good d (not_made bal) =
        returns (in_part (cc) (λ r. omega (arith, d r, bal r)))

    log_path_lem :
        (w₁ : World)
        → Owning w (owned (staged cfg a b (some i) (some o) (some e) [] none none)) w₁
        → {p : Option (List ℕ)} {w₂ : World} → Resolved 1024 w₁ p w₂
        → Returns (Results cfg w) (
            and_ok from_logger_stream
              (log_path_resolved (staged cfg a b (some i) (some o) (some e) [] none none) p)
              w₂)
    unfolding log_path_resolved and_ok from_logger_stream fill_logger_stream
    log_path_lem w₁ d (resolved {p = path} {w' = w₂} dirs short split bal) =
        then_ok cfg w from_logger (
          bind
            (lexleo_app_init_stream-Made w₂ Slot.logger_stream (logger_stream_cfg path)
              (logger_stream_cfg_lem path dirs split) (λ e. absurd (cc)))
            λ ls w₃ m. returns (
              logger_stream_made_lem path w₂ (short, (dirs, split)) (λ r. omega (arith, d r, bal r))
                m))
    log_path_lem w₁ d (unresolved bal) = returns (in_part (cc) (λ r. omega (arith, d r, bal r)))

  module _ (lines : List (List ℕ × OsalFileStatus)) (home : Option (List ℕ)) where
    err_made_lem :
        (a b : ℕ) (i o : Stream) (w₁ : World)
        → StreamServes Slot.input cfg.input.kind i
        → StreamServes Slot.output cfg.output.kind o
        → Owning w (owned (staged cfg a b (some i) (some o) none [] none none)) w₁
        → {e : Option Stream} {w₂ : World}
        → Made own_stream (StreamServes Slot.err cfg.err.kind) w₁ e w₂
        → Returns (Results cfg w) (
            and_ok
              (from_log_path cfg lines home)
              (err_made (staged cfg a b (some i) (some o) none [] none none) e)
              w₂)
    unfolding err_made and_ok from_log_path fill_log_path
    err_made_lem a b i o w₁ i-serves o-serves d (made {h = e} {w' = w₂} serves d₂) =
        then_ok cfg w from_logger_stream (
          bind (lexleo_app_resolve_log_path-Resolved lines home 1024 w₂) λ p w₃ m.
            returns (
              log_path_lem a b i o e i-serves o-serves serves w₂ (λ r. omega (arith, d r, d₂ r)) m))
    err_made_lem a b i o w₁ i-serves o-serves d (not_made bal) =
        returns (in_part (cc) (λ r. omega (arith, d r, bal r)))

    output_made_lem :
        (a b : ℕ) (i : Stream) (w₁ : World)
        → lexleo_app_supported_io_cfg cfg.err ≡ true
        → StreamServes Slot.input cfg.input.kind i
        → Owning w (owned (staged cfg a b (some i) none none [] none none)) w₁
        → {o : Option Stream} {w₂ : World}
        → Made own_stream (StreamServes Slot.output cfg.output.kind) w₁ o w₂
        → Returns (Results cfg w) (
            and_ok
              (from_err cfg lines home)
              (output_made (staged cfg a b (some i) none none [] none none) o)
              w₂)
    unfolding output_made and_ok from_err fill_err
    output_made_lem a b i w₁ ok i-serves d (made {h = o} {w' = w₂} serves d₂) =
        then_ok cfg w (from_log_path cfg lines home) (
          bind (lexleo_app_init_stream-Made w₂ Slot.err cfg.err ok (λ k. λ e. absurd (cc)))
            λ e w₃ m.
              returns (err_made_lem a b i o w₂ i-serves serves (λ r. omega (arith, d r, d₂ r)) m))
    output_made_lem a b i w₁ ok i-serves d (not_made bal) =
        returns (in_part (cc) (λ r. omega (arith, d r, bal r)))

    input_made_lem :
        (a b : ℕ) (w₁ : World)
        → lexleo_app_supported_io_cfg cfg.output ≡ true
        → lexleo_app_supported_io_cfg cfg.err ≡ true
        → Owning w (owned (staged cfg a b none none none [] none none)) w₁
        → {i : Option Stream} {w₂ : World}
        → Made own_stream (StreamServes Slot.input cfg.input.kind) w₁ i w₂
        → Returns (Results cfg w) (
            and_ok
              (from_output cfg lines home)
              (input_made (staged cfg a b none none none [] none none) i)
              w₂)
    unfolding input_made and_ok from_output fill_output
    input_made_lem a b w₁ ok ok' d (made {h = i} {w' = w₂} serves d₂) =
        then_ok cfg w (from_err cfg lines home) (
          bind (lexleo_app_init_stream-Made w₂ Slot.output cfg.output ok (λ k. λ e. absurd (cc)))
            λ o w₃ m.
              returns (output_made_lem a b i w₂ ok' serves (λ r. omega (arith, d r, d₂ r)) m))
    input_made_lem a b w₁ ok ok' d (not_made bal) =
        returns (in_part (cc) (λ r. omega (arith, d r, bal r)))

    -- For a configuration that is supported, the initialisation of a handle as `lexleo_app_create`
    -- leaves it, whose two blocks were taken since `w`, never aborts, whatever the allocator, the file
    -- system and the configuration file answer. With any status the handle owns exactly what was taken
    -- since `w`; with OK it is complete.
    pub lexleo_app_complete_default_init-Initialised :
        (a b : ℕ) (w₁ : World)
        → lexleo_app_supported_cfg cfg ≡ true
        → Owning w (owned (new_app a b)) w₁
        → Returns
            (λ (st, app) w'. Initialised cfg w st app w')
            (lexleo_app_complete_default_init cfg lines home (new_app a b) w₁)
    unfolding lexleo_app_complete_default_init owner_consistent fill_input
    lexleo_app_complete_default_init-Initialised a b w₁ ok d =
        let (ok₁, ok₂, ok₃) = supported_streams cfg ok in
        rw ok (
          then_ok cfg w (from_output cfg lines home) (
            bind (lexleo_app_init_stream-Made w₁ Slot.input cfg.input ok₁ (λ k. λ e. absurd (cc)))
              λ i w₂ m. returns (input_made_lem a b w₁ ok₂ ok₃ d m)))

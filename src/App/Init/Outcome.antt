-- ===== src/App/Init/Outcome.antt =====
-- The outcomes of the initialisation of the application's handle.
use lex_leo.Prelude.{ℕ, ◌<◌, ◌≡◌, ◌≢◌, true, Option, some, List, length}
use lex_leo.Memory.{World}
use lex_leo.Memory.Release.{Owning}
use lex_leo.Stream.{Stream}
use lex_leo.Logger.Lifetime.{LoggerDefault, Logger}
use lex_leo.LogPath.{parent_dirs}
use lex_leo.Vm.{LexleoVm}
use lex_leo.App.{LexleoAppIoKind, LexleoAppCfg, LexleoApp, LexleoAppCrStatus, new_app}
use lex_leo.App.Release.{owned}
use lex_leo.App.Streams.{Slot}
use lex_leo.App.Streams.Ownership.{StreamServes}
use lex_leo.App.Owner.Outcome.{Composed}
use lex_leo.App.Init.{configured}

-- A field that holds a stream for its place.
abbrev pub HasStream : Slot → LexleoAppIoKind → Option Stream → Type 0
HasStream slot kind o = (s : Stream) × (o ≡ some s) × StreamServes slot kind s

-- A path that fits the buffer of the handle, and whose parent directories were made.
abbrev pub IsLogPath : List ℕ → Type 0
IsLogPath path = (length path < 1024) × ((dirs : List (List ℕ)) × (parent_dirs path ≡ some dirs))

-- A logger over the default backend, which ends lines.
abbrev pub HasLogger : Option Logger → Type 0
HasLogger o =
    (l : Logger) × (o ≡ some l)
    × (b : LoggerDefault) × (l.backend ≡ some b)
    × (b.append_newline ≡ true)

-- The parts of an application are there and wired: the configured action and paths, the streams of the configured kinds,
-- the log file, the logger, the factory with its creators, and a machine over the application's own
-- input, output and logger.
pub record Complete (cfg : LexleoAppCfg) (app : LexleoApp) : Type 0 where
  pub action : app.action ≡ cfg.action
  pub input_paths : app.input_paths ≡ cfg.input_paths
  pub input_dynamic_libraries : app.input_dynamic_libraries ≡ cfg.input_dynamic_libraries
  pub output_path : app.output_path ≡ cfg.output_path
  pub input : HasStream Slot.input cfg.input.kind app.input
  pub output : HasStream Slot.output cfg.output.kind app.output
  pub err : HasStream Slot.err cfg.err.kind app.err
  pub log_path : IsLogPath app.log_path
  pub logger_stream : HasStream Slot.logger_stream LexleoAppIoKind.file app.logger_stream
  pub logger : HasLogger app.logger
  pub stream_owner : Composed app.stream_owner
  pub vm_in : app.vm_in ≡ app.input
  pub vm_out : app.vm_out ≡ app.output
  pub vm :
      (vm : LexleoVm) × (app.vm ≡ some vm)
      × (vm.env ≡ record { input = app.input; output = app.output; logger = app.logger })

-- The handle owns what was taken since `w`; with status OK it is complete.
pub data Initialised (cfg : LexleoAppCfg) (w : World)
    : LexleoAppCrStatus → LexleoApp → World → Type 0 where
  complete :
      {app : LexleoApp} {w' : World}
      → Complete cfg app
      → Owning w (owned app) w'
      → Initialised cfg w LexleoAppCrStatus.ok app w'
  in_part :
      {st : LexleoAppCrStatus} {app : LexleoApp} {w' : World}
      → st ≢ LexleoAppCrStatus.ok
      → Owning w (owned app) w'
      → Initialised cfg w st app w'

-- A new handle at the addresses `a` and `b`, configured, with fields filled so far.
abbrev pub staged :
    (cfg : LexleoAppCfg) (a b : ℕ) (input output err : Option Stream) (path : List ℕ)
    → (logger_stream : Option Stream) (logger : Option Logger) → LexleoApp
staged cfg a b input output err path logger_stream logger = record (configured cfg (new_app a b)) {
  input = input;
  output = output;
  err = err;
  log_path = path;
  logger_stream = logger_stream;
  logger = logger;
}

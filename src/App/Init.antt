-- ===== src/App/Init.antt =====
-- The initialisation of the application's handle (lexleo_app_complete_default_init and
-- lexleo_app_create_init of lexleo_app_cr.c). `lines` is what `gets` answers for the configuration
-- file, and `home` what `getenv("HOME")` answers.
pub mod Outcome
pub mod Machine
pub mod Logging
pub mod Creation
pub mod Ownership
use lex_leo.Prelude.{
  ℕ, Bool, true, false, not, ◌&&◌, Option, none, some, List, [], ◌∷◌, codes, is_some, if◌then◌else◌,
}
use lex_leo.Status.{OsalFileStatus}
use lex_leo.Memory.{M, pure, fail, ◌>>=◌, ◌>>◌, assert}
use lex_leo.Stream.{Stream}
use lex_leo.Logger.{LoggerStatus}
use lex_leo.Logger.Lifetime.{
  LoggerDefaultStatus, LoggerDefault, Logger, logger_default_create_init, logger_default_destroy,
  logger_create_init,
}
use lex_leo.LogPath.{lexleo_app_resolve_log_path}
use lex_leo.Vm.{LexleoVmStatus, LexleoVm, lexleo_vm_create_init}
use lex_leo.App.{
  LexleoAppIoKind, LexleoAppIoCfg, LexleoAppCfg, LexleoAppStreamOwner, LexleoApp, LexleoAppCrStatus,
  lexleo_app_create, lexleo_app_destroy, lexleo_app_supported_cfg,
}
use lex_leo.App.Streams.{Slot, lexleo_app_init_stream}
use lex_leo.App.Owner.{lexleo_app_init_stream_owner_opaque}

abbrev pub Result : Type 0
Result = LexleoAppCrStatus × LexleoApp

-- What follows a step that succeeded.
pub and_ok : (LexleoApp → M Result) → Result → M Result
and_ok next (LexleoAppCrStatus.ok, app) = next app
and_ok next (st, app) = pure (st, app)

unfoldable pub owner_consistent : LexleoAppStreamOwner → Bool
owner_consistent o =
    if is_some o.stream_factory
    then is_some o.standard_stream_creator
      && (is_some o.regular_file_creator && is_some o.dynamic_buffer_creator)
    else not (is_some o.standard_stream_creator)
      && (not (is_some o.regular_file_creator) && not (is_some o.dynamic_buffer_creator))

-- `cfg` copied into the handle.
abbrev pub configured : LexleoAppCfg → LexleoApp → LexleoApp
configured cfg app = record app {
  input_paths = cfg.input_paths;
  input_dynamic_libraries = cfg.input_dynamic_libraries;
  output_path = cfg.output_path;
  action = cfg.action;
}

-- The first pointer that is not `NULL`.
abbrev pub or_else : {A : Type 0} → Option A → Option A → Option A
or_else none o = o
or_else (some a) o = some a

-- The steps, from the last to the first: each fills a field that is empty, and goes on.
vm_made : LexleoApp → LexleoVmStatus × Option LexleoVm → M Result
vm_made app (LexleoVmStatus.ok, some vm) = pure (LexleoAppCrStatus.ok, record app { vm = some vm })
vm_made app (LexleoVmStatus.ok, none) = fail
vm_made app (st, o) = pure (LexleoAppCrStatus.vm_init_error, app)

fill_vm : Option LexleoVm → LexleoApp → M Result
unfolding vm_made
fill_vm (some vm) app = pure (LexleoAppCrStatus.ok, app)
fill_vm none app =
    lexleo_vm_create_init (record { input = app.vm_in; output = app.vm_out; logger = app.logger })
    >>= vm_made app

from_vm_in : LexleoApp → M Result
unfolding fill_vm
from_vm_in app =
    fill_vm app.vm
      (record app { vm_in = or_else app.vm_in app.input; vm_out = or_else app.vm_out app.output })

owner_filled : LexleoApp → Option LexleoAppStreamOwner → Result
owner_filled app none = (LexleoAppCrStatus.stream_owner_opaque_init_error, app)
owner_filled app (some o) = (LexleoAppCrStatus.ok, record app { stream_owner = o })

fill_owner : (has_factory : Bool) → LexleoApp → M Result
unfolding owner_filled
fill_owner true app = pure (LexleoAppCrStatus.ok, app)
fill_owner false app = do
  o ← lexleo_app_init_stream_owner_opaque app.stream_owner
  pure (owner_filled app o)

pub from_owner : LexleoApp → M Result
unfolding fill_owner and_ok from_vm_in
from_owner app = fill_owner (is_some app.stream_owner.stream_factory) app >>= and_ok from_vm_in

logger_made : LexleoApp → LoggerDefault → LoggerStatus × Option Logger → M Result
logger_made app backend (LoggerStatus.ok, some l) =
    pure (LexleoAppCrStatus.ok, record app { logger = some l })
logger_made app backend (LoggerStatus.ok, none) = fail
logger_made app backend (st, o) = do
  logger_default_destroy backend
  pure (LexleoAppCrStatus.logger_init_error, app)

default_logger_made : LexleoApp → LoggerDefaultStatus × Option LoggerDefault → M Result
unfolding logger_made
default_logger_made app (LoggerDefaultStatus.ok, some backend) =
    logger_create_init (some backend) >>= logger_made app backend
default_logger_made app (LoggerDefaultStatus.ok, none) = fail
default_logger_made app (st, o) = pure (LexleoAppCrStatus.logger_init_error, app)

-- `logger_default_default_cfg` ends lines with a newline.
fill_logger : Option Logger → LexleoApp → M Result
unfolding default_logger_made
fill_logger (some l) app = pure (LexleoAppCrStatus.ok, app)
fill_logger none app = logger_default_create_init true >>= default_logger_made app

pub from_logger : LexleoApp → M Result
unfolding fill_logger and_ok from_owner
from_logger app = fill_logger app.logger app >>= and_ok from_owner

logger_stream_made : LexleoApp → Option Stream → Result
logger_stream_made app none = (LexleoAppCrStatus.logger_stream_init_error, app)
logger_stream_made app (some s) = (LexleoAppCrStatus.ok, record app { logger_stream = some s })

-- The log file is opened at the path of the handle, to append.
abbrev pub logger_stream_cfg : List ℕ → LexleoAppIoCfg
logger_stream_cfg path = record {
  kind = LexleoAppIoKind.file;
  path = some path;
  mode = some (codes "ab");
}

fill_logger_stream : Option Stream → LexleoApp → M Result
unfolding logger_stream_made
fill_logger_stream (some s) app = pure (LexleoAppCrStatus.ok, app)
fill_logger_stream none app = do
  o ← lexleo_app_init_stream Slot.logger_stream (logger_stream_cfg app.log_path)
  pure (logger_stream_made app o)

from_logger_stream : LexleoApp → M Result
unfolding fill_logger_stream and_ok from_logger
from_logger_stream app = fill_logger_stream app.logger_stream app >>= and_ok from_logger

log_path_resolved : LexleoApp → Option (List ℕ) → Result
log_path_resolved app none = (LexleoAppCrStatus.log_path_resolution_error, app)
log_path_resolved app (some path) = (LexleoAppCrStatus.ok, record app { log_path = path })

err_made : LexleoApp → Option Stream → Result
err_made app none = (LexleoAppCrStatus.err_init_error, app)
err_made app (some s) = (LexleoAppCrStatus.ok, record app { err = some s })

output_made : LexleoApp → Option Stream → Result
output_made app none = (LexleoAppCrStatus.output_init_error, app)
output_made app (some s) = (LexleoAppCrStatus.ok, record app { output = some s })

input_made : LexleoApp → Option Stream → Result
input_made app none = (LexleoAppCrStatus.input_init_error, app)
input_made app (some s) = (LexleoAppCrStatus.ok, record app { input = some s })

module _ (cfg : LexleoAppCfg) (lines : List (List ℕ × OsalFileStatus))
    (home : Option (List ℕ)) where
  fill_log_path : List ℕ → LexleoApp → M Result
  unfolding log_path_resolved
  fill_log_path (c ∷ cs) app = pure (LexleoAppCrStatus.ok, app)
  fill_log_path [] app = do
    o ← lexleo_app_resolve_log_path lines home 1024
    pure (log_path_resolved app o)

  from_log_path : LexleoApp → M Result
  unfolding fill_log_path and_ok from_logger_stream
  from_log_path app = fill_log_path app.log_path app >>= and_ok from_logger_stream

  fill_err : Option Stream → LexleoApp → M Result
  unfolding err_made
  fill_err (some s) app = pure (LexleoAppCrStatus.ok, app)
  fill_err none app = do o ← lexleo_app_init_stream Slot.err cfg.err; pure (err_made app o)

  from_err : LexleoApp → M Result
  unfolding fill_err and_ok from_log_path
  from_err app = fill_err app.err app >>= and_ok from_log_path

  fill_output : Option Stream → LexleoApp → M Result
  unfolding output_made
  fill_output (some s) app = pure (LexleoAppCrStatus.ok, app)
  fill_output none app = do
    o ← lexleo_app_init_stream Slot.output cfg.output
    pure (output_made app o)

  from_output : LexleoApp → M Result
  unfolding fill_output and_ok from_err
  from_output app = fill_output app.output app >>= and_ok from_err

  fill_input : Option Stream → LexleoApp → M Result
  unfolding input_made
  fill_input (some s) app = pure (LexleoAppCrStatus.ok, app)
  fill_input none app = do o ← lexleo_app_init_stream Slot.input cfg.input; pure (input_made app o)

  unfoldable pub lexleo_app_complete_default_init : LexleoApp → M Result
  unfolding fill_input and_ok from_output
  lexleo_app_complete_default_init app = do
    assert (lexleo_app_supported_cfg cfg && owner_consistent app.stream_owner)
    (fill_input app.input (configured cfg app) >>= and_ok from_output)

  initialised : Result → M (Option LexleoApp)
  initialised (LexleoAppCrStatus.ok, app) = pure (some app)
  initialised (st, app) = do lexleo_app_destroy (some app); pure none

  created : LexleoAppCrStatus × Option LexleoApp → M (Option LexleoApp)
  unfolding initialised
  created (LexleoAppCrStatus.ok, some tmp) = lexleo_app_complete_default_init tmp >>= initialised
  created (LexleoAppCrStatus.ok, none) = fail
  created (LexleoAppCrStatus.oom, tmp) = pure none
  created (st, tmp) = fail

  -- The handle, or `none` where C returns false.
  unfoldable pub lexleo_app_create_init : M (Option LexleoApp)
  unfolding created
  lexleo_app_create_init = lexleo_app_create >>= created

-- ===== src/App.antt =====
-- The application handle and its composition root: lexleo_app_cr.c (src/lexleo_app/src/cr). The
-- operation tables that a handle borrows are the world of Memory.antt.
pub mod Release
pub mod Streams
pub mod Owner
pub mod Init
pub mod Run
use lex_leo.Prelude.{
  ℕ, Bool, true, false, not, ◌&&◌, ◌||◌, Option, none, some, List, [], ◌==◌, length, codes, text_eq,
  is_some,
}
use lex_leo.Memory.{M, pure, ◌>>=◌, ◌>>◌, calloc, free}
use lex_leo.FsStream.{supported_mode}
use lex_leo.Stream.{Stream, stream_destroy}
use lex_leo.StreamFactory.{StreamFactory, stream_destroy_factory}
use lex_leo.StreamCreator.{
  StreamCreator, stream_destroy_standard_stream_creator, stream_destroy_regular_file_creator,
  stream_destroy_dynamic_buffer_creator,
}
use lex_leo.Logger.Lifetime.{Logger, logger_destroy}
use lex_leo.Vm.{LexleoVm, lexleo_vm_destroy}

pub data LexleoAppAction : Type 0 where
  undefined control_vm compile assemble link execute interpret help usage_error version :
      LexleoAppAction

pub data LexleoAppIoKind : Type 0 where
  stdio file buffer : LexleoAppIoKind

pub record LexleoAppIoCfg : Type 0 where
  pub kind : LexleoAppIoKind
  pub path : Option (List ℕ)
  pub mode : Option (List ℕ)

pub record LexleoAppCfg : Type 0 where
  pub action : LexleoAppAction
  pub input_paths : List (List ℕ)
  pub input_dynamic_libraries : List (List ℕ)
  pub output_path : Option (List ℕ)
  pub input : LexleoAppIoCfg
  pub output : LexleoAppIoCfg
  pub err : LexleoAppIoCfg

-- The owned factory and creators, in a block at `addr`.
pub record LexleoAppStreamOwner : Type 0 where
  pub addr : ℕ
  pub stream_factory : Option StreamFactory
  pub standard_stream_creator : Option StreamCreator
  pub regular_file_creator : Option StreamCreator
  pub dynamic_buffer_creator : Option StreamCreator

-- The handle at `addr`. A stream is a value with its address, so that an alias is a copy with the
-- same address.
pub record LexleoApp : Type 0 where
  pub addr : ℕ
  pub input_paths : List (List ℕ)
  pub input_dynamic_libraries : List (List ℕ)
  pub output_path : Option (List ℕ)
  pub action : LexleoAppAction
  pub input : Option Stream
  pub output : Option Stream
  pub err : Option Stream
  pub log_path : List ℕ
  pub logger_stream : Option Stream
  pub logger : Option Logger
  pub stream_owner : LexleoAppStreamOwner
  pub vm_in : Option Stream
  pub vm_out : Option Stream
  pub vm : Option LexleoVm

pub data LexleoAppCrStatus : Type 0 where
  ok oom log_path_resolution_error stream_error input_init_error output_init_error err_init_error
        logger_stream_init_error logger_init_error stream_owner_opaque_init_error vm_in_init_error
        vm_out_init_error vm_init_error :
      LexleoAppCrStatus

abbrev pub stdio_cfg : LexleoAppIoCfg
stdio_cfg = record { kind = LexleoAppIoKind.stdio; path = none; mode = none }

unfoldable pub lexleo_app_default_cfg : LexleoAppCfg
lexleo_app_default_cfg = record {
  action = LexleoAppAction.control_vm;
  input_paths = [];
  input_dynamic_libraries = [];
  output_path = none;
  input = stdio_cfg;
  output = stdio_cfg;
  err = stdio_cfg;
}

-- What `calloc` leaves in the two blocks.
abbrev pub new_app : (addr owner : ℕ) → LexleoApp
new_app addr owner = record {
  addr = addr;
  input_paths = [];
  input_dynamic_libraries = [];
  output_path = none;
  action = LexleoAppAction.undefined;
  input = none;
  output = none;
  err = none;
  log_path = [];
  logger_stream = none;
  logger = none;
  stream_owner = record {
    addr = owner;
    stream_factory = none;
    standard_stream_creator = none;
    regular_file_creator = none;
    dynamic_buffer_creator = none;
  };
  vm_in = none;
  vm_out = none;
  vm = none;
}

allocated_owner : ℕ → Option ℕ → M (LexleoAppCrStatus × Option LexleoApp)
allocated_owner tmp none = do free tmp; pure (LexleoAppCrStatus.oom, none)
allocated_owner tmp (some p) = pure (LexleoAppCrStatus.ok, some (new_app tmp p))

allocated_app : Option ℕ → M (LexleoAppCrStatus × Option LexleoApp)
unfolding allocated_owner
allocated_app none = pure (LexleoAppCrStatus.oom, none)
allocated_app (some tmp) = calloc >>= allocated_owner tmp

unfoldable pub lexleo_app_create : M (LexleoAppCrStatus × Option LexleoApp)
unfolding allocated_app
lexleo_app_create = calloc >>= allocated_app

-- `p == q` of two stream pointers.
abbrev pub same_stream : Option Stream → Option Stream → Bool
same_stream none none = true
same_stream (some s) (some t) = s.addr == t.addr
same_stream _ _ = false

destroy_unless : (is_alias : Bool) → Option Stream → M (Unit {0})
destroy_unless true s = pure tt
destroy_unless false s = stream_destroy s

unfoldable pub lexleo_app_destroy : Option LexleoApp → M (Unit {0})
unfolding destroy_unless
lexleo_app_destroy none = pure tt
lexleo_app_destroy (some app) = do
  lexleo_vm_destroy app.vm
  stream_destroy app.input
  stream_destroy app.output
  destroy_unless (same_stream app.input app.vm_in) app.vm_in
  destroy_unless (same_stream app.output app.vm_out) app.vm_out
  stream_destroy app.err
  logger_destroy app.logger
  stream_destroy app.logger_stream
  stream_destroy_standard_stream_creator app.stream_owner.standard_stream_creator
  stream_destroy_regular_file_creator app.stream_owner.regular_file_creator
  stream_destroy_dynamic_buffer_creator app.stream_owner.dynamic_buffer_creator
  stream_destroy_factory app.stream_owner.stream_factory
  free app.stream_owner.addr
  free app.addr

unfoldable pub supported_file_mode : Option (List ℕ) → Bool
supported_file_mode none = false
supported_file_mode (some mode) = supported_mode mode

unfoldable pub nonempty : Option (List ℕ) → Bool
nonempty none = false
nonempty (some path) = not (length path == 0)

unfoldable pub lexleo_app_supported_io_cfg : LexleoAppIoCfg → Bool
unfolding supported_file_mode nonempty
lexleo_app_supported_io_cfg c = elim c.kind [
  | LexleoAppIoKind.stdio ↦ not (is_some c.path) && not (is_some c.mode)
  | LexleoAppIoKind.file ↦ nonempty c.path && supported_file_mode c.mode
  | LexleoAppIoKind.buffer ↦ not (is_some c.path) && not (is_some c.mode)
]

unfoldable pub lexleo_app_supported_action : LexleoAppAction → Bool
lexleo_app_supported_action LexleoAppAction.control_vm = true
lexleo_app_supported_action _ = false

unfoldable pub lexleo_app_supported_cfg : LexleoAppCfg → Bool
unfolding lexleo_app_supported_io_cfg lexleo_app_supported_action
lexleo_app_supported_cfg cfg =
    lexleo_app_supported_action cfg.action
    && (lexleo_app_supported_io_cfg cfg.input
        && (lexleo_app_supported_io_cfg cfg.output && lexleo_app_supported_io_cfg cfg.err))

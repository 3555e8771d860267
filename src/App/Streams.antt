-- ===== src/App/Streams.antt =====
-- The streams that the composition root makes from a configuration (lexleo_app_init_stream of
-- lexleo_app_cr.c).
pub mod Ownership
use lex_leo.Prelude.{ℕ, Option, none, some, List}
use lex_leo.Status.{StreamStatus, FsStreamStatus, StdioStreamStatus, DynamicBufferStreamStatus}
use lex_leo.Memory.{M, pure, fail, ◌>>=◌, ◌>>◌}
use lex_leo.DynamicBuffer.{DynamicBufferStream}
use lex_leo.DynamicBuffer.Lifetime.{
  dynamic_buffer_stream_default_cfg, dynamic_buffer_stream_create_init,
}
use lex_leo.FsStream.{FsStream, fs_stream_create_init}
use lex_leo.StdioStream.{StreamStandardStreamKind, StdioStream, stdio_stream_create_init}
use lex_leo.Stream.{Backend, dynamic_buffer, fs, stdio, Stream, stream_create_init, close_backend}
use lex_leo.App.{LexleoAppIoKind, LexleoAppIoCfg}

-- The field of the handle that `stream` points to.
pub data Slot : Type 0 where
  input output err logger_stream : Slot

standard_backend : StdioStreamStatus × Option StdioStream → M (Option Backend)
standard_backend (StdioStreamStatus.ok, some s) = pure (some (stdio s))
standard_backend (StdioStreamStatus.ok, none) = fail
standard_backend (st, o) = pure none

-- A standard stream has no place as the stream of the logger.
init_standard : Slot → M (Option Backend)
unfolding standard_backend
init_standard Slot.input =
    stdio_stream_create_init StreamStandardStreamKind.stdin >>= standard_backend
init_standard Slot.output =
    stdio_stream_create_init StreamStandardStreamKind.stdout >>= standard_backend
init_standard Slot.err =
    stdio_stream_create_init StreamStandardStreamKind.stderr >>= standard_backend
init_standard Slot.logger_stream = fail

file_backend : FsStreamStatus × Option FsStream → M (Option Backend)
file_backend (FsStreamStatus.ok, some s) = pure (some (fs s))
file_backend (FsStreamStatus.ok, none) = fail
file_backend (st, o) = pure none

init_file : Option (List ℕ) → Option (List ℕ) → M (Option Backend)
unfolding file_backend
init_file path none = fail
init_file path (some mode) = fs_stream_create_init path mode >>= file_backend

buffer_backend : DynamicBufferStreamStatus × Option DynamicBufferStream → M (Option Backend)
buffer_backend (DynamicBufferStreamStatus.ok, some s) = pure (some (dynamic_buffer s))
buffer_backend (DynamicBufferStreamStatus.ok, none) = fail
buffer_backend (st, o) = pure none

-- The switch over the kind.
unfoldable pub init_backend : Slot → LexleoAppIoCfg → M (Option Backend)
unfolding init_standard init_file buffer_backend
init_backend slot io_cfg = elim io_cfg.kind [
  | LexleoAppIoKind.stdio ↦ init_standard slot
  | LexleoAppIoKind.file ↦ init_file io_cfg.path io_cfg.mode
  | LexleoAppIoKind.buffer ↦
      dynamic_buffer_stream_create_init dynamic_buffer_stream_default_cfg >>= buffer_backend
]

kept_stream : Backend → StreamStatus × Option Stream → M (Option Stream)
kept_stream backend (StreamStatus.ok, some s) = pure (some s)
kept_stream backend (StreamStatus.ok, none) = fail
kept_stream backend (st, o) = do close_backend backend; pure none

stream_over : Option Backend → M (Option Stream)
unfolding kept_stream
stream_over none = pure none
stream_over (some backend) = stream_create_init (some backend) >>= kept_stream backend

-- The stream, or `none` where C returns false.
unfoldable pub lexleo_app_init_stream : Slot → LexleoAppIoCfg → M (Option Stream)
unfolding init_backend stream_over
lexleo_app_init_stream slot io_cfg = init_backend slot io_cfg >>= stream_over

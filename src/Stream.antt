-- ===== src/Stream.antt =====
-- The stream port: handles, and the operations of stream_cr.c, stream_owner.c and stream_borrower.c
-- on them (src/foundation/stream_new/port). A backend with its dispatch table is a constructor of
-- `Backend`, and a call through the table is a function by cases.
pub mod Ownership
pub mod Dispatch
pub mod OverFile
pub mod Session
use lex_leo.Prelude.{
  ℕ, Bool, true, false, not, Option, none, some, List, [], ◌==◌, if◌then◌else◌, is_some,
}
use lex_leo.Status.{StreamStatus}
use lex_leo.Memory.{M, pure, fail, ◌>>=◌, ◌>>◌, assert, calloc, free}
use lex_leo.DynamicBuffer.{
  DynamicBufferStream, dynamic_buffer_stream_read, dynamic_buffer_stream_write,
  dynamic_buffer_stream_flush,
}
use lex_leo.DynamicBuffer.Lifetime.{dynamic_buffer_stream_close}
use lex_leo.FsStream.{
  FileOps, FsStream, fs_stream_read, fs_stream_write, fs_stream_flush, fs_stream_close,
}
use lex_leo.StdioStream.{
  StdioOps, StdioStream, stdio_stream_read, stdio_stream_write, stdio_stream_flush,
  stdio_stream_close,
}

pub data Backend : Type 0 where
  dynamic_buffer : DynamicBufferStream → Backend
  fs : FsStream → Backend
  stdio : StdioStream → Backend

pub record Stream : Type 0 where
  pub addr : ℕ
  pub backend : Option Backend

-- `vtbl->close(backend)`
unfoldable pub close_backend : Backend → M StreamStatus
close_backend (dynamic_buffer b) = dynamic_buffer_stream_close (some b)
close_backend (fs b) = fs_stream_close b
close_backend (stdio b) = stdio_stream_close (some b)

close_if : Option Backend → M (Unit {0})
unfolding close_backend
close_if none = pure tt
close_if (some b) = do close_backend b; pure tt

-- `*s` is `NULL` afterwards.
unfoldable pub stream_destroy : Option Stream → M (Unit {0})
unfolding close_if
stream_destroy none = pure tt
stream_destroy (some s) = do close_if s.backend; free s.addr

new_stream : Option ℕ → M (StreamStatus × Option Stream)
new_stream none = pure (StreamStatus.oom, none)
new_stream (some p) = pure (StreamStatus.ok, some (record { addr = p; backend = none }))

unfoldable pub stream_create : M (StreamStatus × Option Stream)
unfolding new_stream
stream_create = calloc >>= new_stream

-- A handle takes a backend exactly if it has none.
unfoldable pub stream_complete_default_init : Stream → Option Backend → M (StreamStatus × Stream)
stream_complete_default_init s backend =
    if is_some s.backend
    then (do assert (not (is_some backend)); pure (StreamStatus.ok, s))
    else do assert (is_some backend); pure (StreamStatus.ok, record s { backend = backend })

finish_create_init : StreamStatus × Stream → M (StreamStatus × Option Stream)
finish_create_init (StreamStatus.ok, s) = pure (StreamStatus.ok, some s)
finish_create_init (st, s) = do stream_destroy (some s); pure (st, none)

init_created : Option Backend → StreamStatus × Option Stream → M (StreamStatus × Option Stream)
unfolding finish_create_init
init_created backend (st, none) = pure (st, none)
init_created backend (st, some s) = stream_complete_default_init s backend >>= finish_create_init

unfoldable pub stream_create_init : Option Backend → M (StreamStatus × Option Stream)
unfolding init_created
stream_create_init backend = stream_create >>= init_created backend

module _ (file_ops : FileOps) (stdio_ops : StdioOps) where
  with_dynamic_buffer :
      {A : Type 0}
      → Stream
      → A × StreamStatus × Option DynamicBufferStream
      → M (A × StreamStatus × Option Stream)
  with_dynamic_buffer s (a, st, none) = fail
  with_dynamic_buffer s (a, st, some b) =
      pure (a, st, some (record s { backend = some (dynamic_buffer b) }))

  read_backend : Stream → Option Backend → ℕ → M (List ℕ × StreamStatus × Option Stream)
  unfolding with_dynamic_buffer
  read_backend s none n = fail
  read_backend s (some (dynamic_buffer b)) n =
      dynamic_buffer_stream_read (some b) true n >>= with_dynamic_buffer s
  read_backend s (some (fs b)) n = do
    (bytes, st) ← fs_stream_read file_ops b n
    pure (bytes, st, some s)
  read_backend s (some (stdio b)) n = do
    (bytes, st) ← stdio_stream_read stdio_ops (some b) true n
    pure (bytes, st, some s)

  read_from : Option Stream → (to : Bool) → ℕ → M (List ℕ × StreamStatus × Option Stream)
  unfolding read_backend
  read_from (some s) true n = read_backend s s.backend n
  read_from s to n = pure ([], StreamStatus.invalid, s)

  -- `to` says whether the destination is not `NULL`.
  unfoldable pub stream_read :
      Option Stream → (to : Bool) → ℕ → M (List ℕ × StreamStatus × Option Stream)
  unfolding read_from
  stream_read s to n = if n == 0 then pure ([], StreamStatus.ok, s) else read_from s to n

  write_backend : Stream → Option Backend → List ℕ → ℕ → M (ℕ × StreamStatus × Option Stream)
  unfolding with_dynamic_buffer
  write_backend s none src n = fail
  write_backend s (some (dynamic_buffer b)) src n =
      dynamic_buffer_stream_write (some b) (some src) n >>= with_dynamic_buffer s
  write_backend s (some (fs b)) src n = do
    (k, st) ← fs_stream_write file_ops b src n
    pure (k, st, some s)
  write_backend s (some (stdio b)) src n = do
    (k, st) ← stdio_stream_write stdio_ops (some b) (some src) n
    pure (k, st, some s)

  write_to : Option Stream → Option (List ℕ) → ℕ → M (ℕ × StreamStatus × Option Stream)
  unfolding write_backend
  write_to (some s) (some src) n = write_backend s s.backend src n
  write_to s src n = pure (0, StreamStatus.invalid, s)

  unfoldable pub stream_write :
      Option Stream → Option (List ℕ) → ℕ → M (ℕ × StreamStatus × Option Stream)
  unfolding write_to
  stream_write s src n = if n == 0 then pure (0, StreamStatus.ok, s) else write_to s src n

  flush_backend : Option Backend → M StreamStatus
  flush_backend none = fail
  flush_backend (some (dynamic_buffer b)) = dynamic_buffer_stream_flush (some b)
  flush_backend (some (fs b)) = fs_stream_flush file_ops b
  flush_backend (some (stdio b)) = stdio_stream_flush stdio_ops (some b)

  unfoldable pub stream_flush : Option Stream → M StreamStatus
  unfolding flush_backend
  stream_flush none = pure StreamStatus.invalid
  stream_flush (some s) = flush_backend s.backend

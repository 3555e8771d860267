-- ===== src/StdioStream.antt =====
-- The standard-stream backend: stdio_stream_cr.c (src/foundation/stream_new/adapters/stdio_stream).
-- The handle that `get_stdin`, `get_stdout` or `get_stderr` returns is named by its kind; the other
-- standard I/O operations are injected, as the record `StdioOps`.
pub mod Ownership
use lex_leo.Prelude.{
  ℕ, Bool, true, false, Option, none, some, List, [], ltb, ◌==◌, if◌then◌else◌, is_some,
}
use lex_leo.Status.{StreamStatus, StdioStreamStatus, stdio_stream_status_to_stream_status}
use lex_leo.Memory.{M, pure, fail, ◌>>=◌, ◌>>◌, assert, calloc, free}

pub data StreamStandardStreamKind : Type 0 where
  stdin stdout stderr : StreamStandardStreamKind

abbrev pub is_stdin : StreamStandardStreamKind → Bool
is_stdin StreamStandardStreamKind.stdin = true
is_stdin _ = false

-- `osal_stdio_ops_t`: a read yields the bytes that it stores; `flush` says whether it failed.
pub record StdioOps : Type 0 where
  pub read : StreamStandardStreamKind → ℕ → M (List ℕ)
  pub write : StreamStandardStreamKind → List ℕ → ℕ → M ℕ
  pub flush : StreamStandardStreamKind → M Bool
  pub error : StreamStandardStreamKind → M Bool
  pub eof : StreamStandardStreamKind → M Bool

pub record StdioStream : Type 0 where
  pub addr : ℕ
  pub stdio : Option StreamStandardStreamKind

module _ (ops : StdioOps) where
  read_from : StreamStandardStreamKind → ℕ → M (List ℕ × StreamStatus)
  read_from k n = do
    bytes ← ops.read k n
    failed ← ops.error k
    if failed
        then pure (bytes, StreamStatus.io_error)
        else do ended ← ops.eof k; pure (bytes, if ended then StreamStatus.eof else StreamStatus.ok)

  read_checked : Option StreamStandardStreamKind → ℕ → M (List ℕ × StreamStatus)
  unfolding read_from
  read_checked none n = fail
  read_checked (some StreamStandardStreamKind.stdin) n =
      if n == 0 then pure ([], StreamStatus.ok) else read_from StreamStandardStreamKind.stdin n
  read_checked (some k) n = pure ([], StreamStatus.io_error)

  -- `to` says whether the destination is not `NULL`.
  unfoldable pub stdio_stream_read :
      Option StdioStream → (to : Bool) → ℕ → M (List ℕ × StreamStatus)
  unfolding read_checked
  stdio_stream_read none to n = pure ([], StreamStatus.invalid)
  stdio_stream_read (some s) true n = read_checked s.stdio n
  stdio_stream_read (some s) false n =
      if ltb 0 n then pure ([], StreamStatus.invalid) else read_checked s.stdio n

  write_to : StreamStandardStreamKind → List ℕ → ℕ → M (ℕ × StreamStatus)
  write_to k src n = if n == 0 then pure (0, StreamStatus.ok) else do
    ret ← ops.write k src n
    failed ← ops.error k
    pure (ret, if failed then StreamStatus.io_error else StreamStatus.ok)

  write_checked : Option StreamStandardStreamKind → List ℕ → ℕ → M (ℕ × StreamStatus)
  unfolding write_to
  write_checked none src n = fail
  write_checked (some StreamStandardStreamKind.stdin) src n = pure (0, StreamStatus.io_error)
  write_checked (some k) src n = write_to k src n

  unfoldable pub stdio_stream_write :
      Option StdioStream → Option (List ℕ) → ℕ → M (ℕ × StreamStatus)
  unfolding write_checked
  stdio_stream_write none src n = pure (0, StreamStatus.invalid)
  stdio_stream_write (some s) (some src) n = write_checked s.stdio src n
  stdio_stream_write (some s) none n =
      if ltb 0 n then pure (0, StreamStatus.invalid) else write_checked s.stdio [] n

  flush_checked : Option StreamStandardStreamKind → M StreamStatus
  flush_checked none = fail
  flush_checked (some StreamStandardStreamKind.stdin) = pure StreamStatus.io_error
  flush_checked (some k) = do
    failed ← ops.flush k
    pure (if failed then StreamStatus.io_error else StreamStatus.ok)

  unfoldable pub stdio_stream_flush : Option StdioStream → M StreamStatus
  unfolding flush_checked
  stdio_stream_flush none = pure StreamStatus.invalid
  stdio_stream_flush (some s) = flush_checked s.stdio

unfoldable pub stdio_stream_close : Option StdioStream → M StreamStatus
stdio_stream_close none = pure StreamStatus.invalid
stdio_stream_close (some s) = do free s.addr; pure StreamStatus.ok

new_handle : Option ℕ → M (StdioStreamStatus × Option StdioStream)
new_handle none = pure (StdioStreamStatus.oom, none)
new_handle (some p) = pure (StdioStreamStatus.ok, some (record { addr = p; stdio = none }))

unfoldable pub stdio_stream_create : M (StdioStreamStatus × Option StdioStream)
unfolding new_handle
stdio_stream_create = calloc >>= new_handle

-- A handle that has a stream keeps it.
unfoldable pub stdio_stream_complete_default_init :
    StdioStream → StreamStandardStreamKind → StdioStreamStatus × StdioStream
stdio_stream_complete_default_init s kind =
    if is_some s.stdio
    then (StdioStreamStatus.ok, s)
    else (StdioStreamStatus.ok, record s { stdio = some kind })

finish_create_init : StdioStreamStatus × StdioStream → M (StdioStreamStatus × Option StdioStream)
finish_create_init (StdioStreamStatus.ok, s) = pure (StdioStreamStatus.ok, some s)
finish_create_init (st, s) = do stdio_stream_close (some s); pure (st, none)

init_created :
    StreamStandardStreamKind
    → StdioStreamStatus × Option StdioStream
    → M (StdioStreamStatus × Option StdioStream)
unfolding finish_create_init
init_created kind (st, none) = pure (st, none)
init_created kind (st, some s) = finish_create_init (stdio_stream_complete_default_init s kind)

unfoldable pub stdio_stream_create_init :
    StreamStandardStreamKind → M (StdioStreamStatus × Option StdioStream)
unfolding init_created
stdio_stream_create_init kind = stdio_stream_create >>= init_created kind

finish_ctor : StdioStreamStatus × StdioStream → M (StreamStatus × Option StdioStream)
finish_ctor (StdioStreamStatus.ok, s) = pure (StreamStatus.ok, some s)
finish_ctor (st, s) = do
  stdio_stream_close (some s)
  pure (stdio_stream_status_to_stream_status st, none)

ctor_created :
    StreamStandardStreamKind
    → StdioStreamStatus × Option StdioStream
    → M (StreamStatus × Option StdioStream)
unfolding finish_ctor
ctor_created kind (st, none) = pure (stdio_stream_status_to_stream_status st, none)
ctor_created kind (st, some s) = finish_ctor (stdio_stream_complete_default_init s kind)

unfoldable pub stdio_stream_ctor : StreamStandardStreamKind → M (StreamStatus × Option StdioStream)
unfolding ctor_created
stdio_stream_ctor kind = stdio_stream_create >>= ctor_created kind

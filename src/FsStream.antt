-- ===== src/FsStream.antt =====
-- The file backend: fs_stream_cr.c (src/foundation/stream_new/adapters/fs_stream). The file
-- operations are injected: opening and closing act on the world, and reading, writing and flushing
-- are the record `FileOps`.
pub mod Ownership
pub mod Missing
pub mod Neutral
use lex_leo.Prelude.{
  ℕ, ◌≡◌, Bool, true, false, not, ◌&&◌, ◌||◌, Option, none, some, List, [], ◌∷◌, leb, ◌==◌,
  if◌then◌else◌, length, codes, text_eq,
}
use lex_leo.Status.{
  StreamStatus, OsalFileStatus, FsStreamStatus, map_osal_file_status,
  fs_stream_status_from_osal_file_status, fs_stream_status_to_stream_status,
}
use lex_leo.Memory.{M, pure, fail, ◌>>=◌, ◌>>◌, assert, calloc, free, open_file, close_file}

-- `osal_file_ops_t`: read, write and flush of an open handle. A read yields the bytes that it
-- stores, whose number it returns, and a write the number of bytes taken.
pub record FileOps : Type 0 where
  pub read : ℕ → ℕ → M (List ℕ × OsalFileStatus)
  pub write : ℕ → List ℕ → ℕ → M (ℕ × OsalFileStatus)
  pub flush : ℕ → M OsalFileStatus

pub record FsStream : Type 0 where
  pub addr : ℕ
  pub file : Option ℕ

module _ (ops : FileOps) where
  read_file : Option ℕ → ℕ → M (List ℕ × StreamStatus)
  read_file none n = fail
  read_file (some f) n = do (bytes, st) ← ops.read f n; pure (bytes, map_osal_file_status st)

  write_file : Option ℕ → List ℕ → ℕ → M (ℕ × StreamStatus)
  write_file none src n = fail
  write_file (some f) src n = do (k, st) ← ops.write f src n; pure (k, map_osal_file_status st)

  flush_file : Option ℕ → M StreamStatus
  flush_file none = fail
  flush_file (some f) = do st ← ops.flush f; pure (map_osal_file_status st)

  unfoldable pub fs_stream_read : FsStream → ℕ → M (List ℕ × StreamStatus)
  unfolding read_file
  fs_stream_read s n = do assert (not (n == 0)); read_file s.file n

  unfoldable pub fs_stream_write : FsStream → List ℕ → ℕ → M (ℕ × StreamStatus)
  unfolding write_file
  fs_stream_write s src n = do assert (not (n == 0)); write_file s.file src n

  unfoldable pub fs_stream_flush : FsStream → M StreamStatus
  unfolding flush_file
  fs_stream_flush s = flush_file s.file

close_handle : Option ℕ → M StreamStatus
close_handle none = pure StreamStatus.ok
close_handle (some f) = do st ← close_file f; pure (map_osal_file_status st)

unfoldable pub fs_stream_close : FsStream → M StreamStatus
unfolding close_handle
fs_stream_close s = do close_st ← close_handle s.file; free s.addr; pure close_st

new_handle : Option ℕ → M (FsStreamStatus × Option FsStream)
new_handle none = pure (FsStreamStatus.oom, none)
new_handle (some p) = pure (FsStreamStatus.ok, some (record { addr = p; file = none }))

unfoldable pub fs_stream_create : M (FsStreamStatus × Option FsStream)
unfolding new_handle
fs_stream_create = calloc >>= new_handle

-- The modes that the asserts allow.
unfoldable pub supported_mode : List ℕ → Bool
supported_mode mode =
    text_eq mode (codes "rb") || (text_eq mode (codes "wb") || text_eq mode (codes "ab"))

-- Not `NULL`, not empty, and at most 255 bytes.
unfoldable pub valid_path : Option (List ℕ) → Bool
valid_path none = false
valid_path (some path) = not (length path == 0) && leb (length path) 255

opened : FsStream → OsalFileStatus × Option ℕ → M (FsStreamStatus × FsStream)
opened s (OsalFileStatus.ok, some f) = pure (FsStreamStatus.ok, record s { file = some f })
opened s (OsalFileStatus.ok, none) = fail
opened s (st, f) = pure (fs_stream_status_from_osal_file_status st, s)

open_unless : Option ℕ → FsStream → Option (List ℕ) → M (FsStreamStatus × FsStream)
unfolding opened
open_unless (some f) s path = pure (FsStreamStatus.ok, s)
open_unless none s path =
    if valid_path path then open_file >>= opened s else pure (FsStreamStatus.invalid, s)

unfoldable pub fs_stream_complete_default_init :
    FsStream → (path : Option (List ℕ)) (mode : List ℕ) → M (FsStreamStatus × FsStream)
unfolding open_unless supported_mode
fs_stream_complete_default_init s path mode = do
  assert (supported_mode mode)
  open_unless s.file s path

finish_create_init : FsStreamStatus × FsStream → M (FsStreamStatus × Option FsStream)
finish_create_init (FsStreamStatus.ok, s) = pure (FsStreamStatus.ok, some s)
finish_create_init (st, s) = do fs_stream_close s; pure (st, none)

init_created :
    Option (List ℕ)
    → List ℕ
    → FsStreamStatus × Option FsStream
    → M (FsStreamStatus × Option FsStream)
unfolding finish_create_init
init_created path mode (st, none) = pure (st, none)
init_created path mode (st, some s) =
    fs_stream_complete_default_init s path mode >>= finish_create_init

unfoldable pub fs_stream_create_init :
    (path : Option (List ℕ)) (mode : List ℕ) → M (FsStreamStatus × Option FsStream)
unfolding init_created
fs_stream_create_init path mode = fs_stream_create >>= init_created path mode

finish_ctor : FsStreamStatus × FsStream → M (StreamStatus × Option FsStream)
finish_ctor (FsStreamStatus.ok, s) = pure (StreamStatus.ok, some s)
finish_ctor (st, s) = do fs_stream_close s; pure (fs_stream_status_to_stream_status st, none)

ctor_created :
    Option (List ℕ) → List ℕ → FsStreamStatus × Option FsStream → M (StreamStatus × Option FsStream)
unfolding finish_ctor
ctor_created path mode (st, none) = pure (fs_stream_status_to_stream_status st, none)
ctor_created path mode (st, some s) = fs_stream_complete_default_init s path mode >>= finish_ctor

unfoldable pub fs_stream_ctor :
    (path : Option (List ℕ)) (mode : List ℕ) → M (StreamStatus × Option FsStream)
unfolding ctor_created
fs_stream_ctor path mode = fs_stream_create >>= ctor_created path mode

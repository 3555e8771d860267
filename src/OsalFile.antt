-- ===== src/OsalFile.antt =====
-- The file operations of the POSIX backend: osal_file_posix.c (src/foundation/osal/osal_file/src).
-- The C library is the record `CStdio`: each call yields its result and what `errno` is after it.
-- Status pointers are not `NULL`.
pub mod Ownership
pub mod Transfers
use lex_leo.Prelude.{
  ℕ, Bool, true, false, not, ◌&&◌, ◌||◌, Option, none, some, List, [], ◌∷◌, ltb, ◌==◌,
  if◌then◌else◌, length,
}
use lex_leo.Status.{OsalFileStatus}
use lex_leo.Memory.{M, pure, ◌>>=◌, ◌>>◌, calloc, free}
use lex_leo.FsStream.{supported_mode}

pub data Errno : Type 0 where
  zero einval enoent eacces eperm eexist enospc enametoolong enotdir eisdir ebadf efbig eintr emfile
        enfile eloop erofs espipe exdev enodev enxio estale enomem other :
      Errno

unfoldable pub osal_file_map_errno : Errno → OsalFileStatus
osal_file_map_errno Errno.zero = OsalFileStatus.ok
osal_file_map_errno Errno.einval = OsalFileStatus.invalid
osal_file_map_errno Errno.enoent = OsalFileStatus.noent
osal_file_map_errno Errno.eacces = OsalFileStatus.perm
osal_file_map_errno Errno.eperm = OsalFileStatus.perm
osal_file_map_errno Errno.eexist = OsalFileStatus.exists
osal_file_map_errno Errno.enospc = OsalFileStatus.nospc
osal_file_map_errno Errno.enametoolong = OsalFileStatus.nametoolong
osal_file_map_errno Errno.enotdir = OsalFileStatus.notdir
osal_file_map_errno Errno.eisdir = OsalFileStatus.isdir
osal_file_map_errno Errno.ebadf = OsalFileStatus.badf
osal_file_map_errno Errno.efbig = OsalFileStatus.fbig
osal_file_map_errno Errno.eintr = OsalFileStatus.intr
osal_file_map_errno Errno.emfile = OsalFileStatus.mfile
osal_file_map_errno Errno.enfile = OsalFileStatus.nfile
osal_file_map_errno Errno.eloop = OsalFileStatus.loop
osal_file_map_errno Errno.erofs = OsalFileStatus.rofs
osal_file_map_errno Errno.espipe = OsalFileStatus.spipe
osal_file_map_errno Errno.exdev = OsalFileStatus.xdev
osal_file_map_errno Errno.enodev = OsalFileStatus.nodev
osal_file_map_errno Errno.enxio = OsalFileStatus.nxio
osal_file_map_errno Errno.estale = OsalFileStatus.stale
osal_file_map_errno Errno.enomem = OsalFileStatus.oom
osal_file_map_errno Errno.other = OsalFileStatus.io

-- What a call that moves data leaves: how many elements it moved, what `ferror` and `feof` then say of
-- the stream, and `errno`.
pub record Transfer : Type 0 where
  pub count : ℕ
  pub error : Bool
  pub eof : Bool
  pub errno : Errno

-- The calls of the C library, on a `FILE *` that a number names. A read also yields the bytes that
-- it stores.
pub record CStdio : Type 0 where
  pub fopen : (pathname mode : List ℕ) → M (Option ℕ × Errno)
  pub fclose : ℕ → M (Bool × Errno)
  pub fflush : ℕ → M (Bool × Errno)
  pub mkdir : List ℕ → M (Bool × Errno)
  pub fread : (size nmemb fp : ℕ) → M (List ℕ × Transfer)
  pub fwrite : (src : List ℕ) (size nmemb fp : ℕ) → M Transfer
  pub fgets : (n fp : ℕ) → M (Option (List ℕ) × Transfer)

pub record OsalFile : Type 0 where
  pub addr : ℕ
  pub fp : Option ℕ

abbrev pub int_max : ℕ
int_max = 2147483647

-- The status of a read: a short count is an error, the end of the file, or neither.
read_status : (nmemb : ℕ) → Transfer → OsalFileStatus
read_status nmemb t =
    if ltb t.count nmemb
    then if t.error
      then osal_file_map_errno t.errno
      else if t.eof
      then OsalFileStatus.eof
      else OsalFileStatus.ok
    else OsalFileStatus.ok

elements_read : (nmemb : ℕ) → List ℕ × Transfer → M (List ℕ × ℕ × OsalFileStatus)
unfolding read_status
elements_read nmemb (bytes, t) = pure (bytes, t.count, read_status nmemb t)

-- The status of a write: a short count is an error only with the error indicator.
write_status : (nmemb : ℕ) → Transfer → OsalFileStatus
write_status nmemb t =
    if ltb t.count nmemb && t.error then osal_file_map_errno t.errno else OsalFileStatus.ok

elements_written : (nmemb : ℕ) → Transfer → M (ℕ × OsalFileStatus)
unfolding write_status
elements_written nmemb t = pure (t.count, write_status nmemb t)

module _ (c : CStdio) where
  -- The source reads `errno` behind the release, which is taken to leave it as it is.
  file_opened : ℕ → Option ℕ × Errno → M (OsalFileStatus × Option OsalFile)
  file_opened tmp (none, errno) = do free tmp; pure (osal_file_map_errno errno, none)
  file_opened tmp (some fp, errno) =
      pure (OsalFileStatus.ok, some (record { addr = tmp; fp = some fp }))

  wrapper_made : (pathname mode : List ℕ) → Option ℕ → M (OsalFileStatus × Option OsalFile)
  unfolding file_opened
  wrapper_made pathname mode none = pure (OsalFileStatus.oom, none)
  wrapper_made pathname mode (some tmp) = c.fopen pathname mode >>= file_opened tmp

  open_checked : List ℕ → List ℕ → M (OsalFileStatus × Option OsalFile)
  unfolding wrapper_made
  open_checked pathname mode =
      if not (length pathname == 0) && supported_mode mode
      then calloc >>= wrapper_made pathname mode
      else pure (OsalFileStatus.invalid, none)

  -- `malloc` is a request like `calloc`: both fields of the block are set.
  unfoldable pub osal_file_open :
      (pathname mode : Option (List ℕ)) → M (OsalFileStatus × Option OsalFile)
  unfolding open_checked
  osal_file_open (some pathname) (some mode) = open_checked pathname mode
  osal_file_open pathname mode = pure (OsalFileStatus.invalid, none)

  flushed : Bool × Errno → M OsalFileStatus
  flushed (failed, errno) = pure (if failed then osal_file_map_errno errno else OsalFileStatus.ok)

  flush_file : Option ℕ → M OsalFileStatus
  unfolding flushed
  flush_file none = pure OsalFileStatus.invalid
  flush_file (some fp) = c.fflush fp >>= flushed

  unfoldable pub osal_file_flush : Option OsalFile → M OsalFileStatus
  unfolding flush_file
  osal_file_flush none = pure OsalFileStatus.invalid
  osal_file_flush (some stream) = flush_file stream.fp

  file_closed : ℕ → Bool × Errno → M OsalFileStatus
  file_closed p (true, errno) = pure (osal_file_map_errno errno)
  file_closed p (false, errno) = do free p; pure OsalFileStatus.ok

  close_wrapped : ℕ → Option ℕ → M OsalFileStatus
  unfolding file_closed
  close_wrapped p none = pure OsalFileStatus.invalid
  close_wrapped p (some fp) = c.fclose fp >>= file_closed p

  unfoldable pub osal_file_close : Option OsalFile → M OsalFileStatus
  unfolding close_wrapped
  osal_file_close none = pure OsalFileStatus.invalid
  osal_file_close (some stream) = close_wrapped stream.addr stream.fp

  dir_made : Bool × Errno → M OsalFileStatus
  dir_made (failed, errno) = pure (if failed then osal_file_map_errno errno else OsalFileStatus.ok)

  unfoldable pub osal_file_mkdir : Option (List ℕ) → M OsalFileStatus
  unfolding dir_made
  osal_file_mkdir none = pure OsalFileStatus.invalid
  osal_file_mkdir (some []) = pure OsalFileStatus.invalid
  osal_file_mkdir (some (x ∷ xs)) = c.mkdir (x ∷ xs) >>= dir_made

  read_file : (size nmemb : ℕ) → Option ℕ → M (List ℕ × ℕ × OsalFileStatus)
  unfolding elements_read
  read_file size nmemb none = pure ([], 0, OsalFileStatus.invalid)
  read_file size nmemb (some fp) = c.fread size nmemb fp >>= elements_read nmemb

  -- `to` says whether the destination is not `NULL`. The result is the bytes stored, the number of
  -- elements and the status.
  unfoldable pub osal_file_read :
      (to : Bool) (size nmemb : ℕ) → Option OsalFile → M (List ℕ × ℕ × OsalFileStatus)
  unfolding read_file
  osal_file_read true size nmemb (some stream) = read_file size nmemb stream.fp
  osal_file_read to size nmemb stream = pure ([], 0, OsalFileStatus.invalid)

  write_file : List ℕ → (size nmemb : ℕ) → Option ℕ → M (ℕ × OsalFileStatus)
  unfolding elements_written
  write_file src size nmemb none = pure (0, OsalFileStatus.invalid)
  write_file src size nmemb (some fp) = c.fwrite src size nmemb fp >>= elements_written nmemb

  unfoldable pub osal_file_write :
      Option (List ℕ) → (size nmemb : ℕ) → Option OsalFile → M (ℕ × OsalFileStatus)
  unfolding write_file
  osal_file_write (some src) size nmemb (some stream) = write_file src size nmemb stream.fp
  osal_file_write src size nmemb stream = pure (0, OsalFileStatus.invalid)

  line_read : Option (List ℕ) × Transfer → M (Option (List ℕ) × OsalFileStatus)
  line_read (some line, t) = pure (some line, OsalFileStatus.ok)
  line_read (none, t) =
      pure (none, if t.error then osal_file_map_errno t.errno else OsalFileStatus.ok)

  gets_file : (out_size : ℕ) → Option ℕ → M (Option (List ℕ) × OsalFileStatus)
  unfolding line_read
  gets_file out_size none = pure (none, OsalFileStatus.invalid)
  gets_file out_size (some fp) = c.fgets out_size fp >>= line_read

  unfoldable pub osal_file_gets :
      (to : Bool) (out_size : ℕ) → Option OsalFile → M (Option (List ℕ) × OsalFileStatus)
  unfolding gets_file
  osal_file_gets true out_size (some stream) =
      if (out_size == 0) || ltb int_max out_size
      then pure (none, OsalFileStatus.invalid)
      else gets_file out_size stream.fp
  osal_file_gets to out_size stream = pure (none, OsalFileStatus.invalid)

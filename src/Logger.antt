-- ===== src/Logger.antt =====
-- The log operation of the default logger over a stream: logger_default_cr.c
-- (src/foundation/logger_new/adapters/logger_default) and logger_borrower.c (its port). The stream
-- that the logger borrows is passed in and out; what `time_ops->now` reports is an argument.
pub mod Line
pub mod Lifetime
use lex_leo.Prelude.{
  ℕ, zero, suc, ◌+◌, ◌-◌, ◌/◌, ◌%◌, Bool, true, false, Option, none, some, List, [], ◌∷◌, ◌++◌, ltb,
  leb, ◌==◌, if◌then◌else◌, length, replicate, codes,
}
use lex_leo.Status.{StreamStatus}
use lex_leo.Memory.{M, pure, fail, ◌>>=◌, ◌>>◌}
use lex_leo.FsStream.{FileOps}
use lex_leo.StdioStream.{StdioOps}
use lex_leo.Stream.{Stream, stream_write, stream_flush}
use lex_leo.UtcTimestamp.{ℤ, pos, negsuc, UtcTimestamp, logger_default_epoch_time_to_date}

pub data LoggerStatus : Type 0 where
  ok invalid io_error no_backend oom : LoggerStatus

pub data OsalTimeStatus : Type 0 where
  ok invalid error : OsalTimeStatus

-- The decimal digits of a number, on fuel that exceeds it.
unfoldable pub digits : ℕ → ℕ → List ℕ
digits zero n = []
digits (suc f) n =
    let more = digits f (n / 10) in
    let last = (48 + n % 10) ∷ [] in if n == 0 then [] else more ++ last

-- `%0*PRId32` of a number at a width of at least 1: zeros up to the width, which a sign is part of.
unfoldable pub padded : ℕ → ℤ → List ℕ
padded width (pos n) = let ds = digits (suc n) n in replicate (width - length ds) 48 ++ ds
padded width (negsuc n) =
    let ds = digits (suc (suc n)) (suc n) in 45 ∷ (replicate (width - 1 - length ds) 48 ++ ds)

unfoldable pub timestamp_text : UtcTimestamp → List ℕ
timestamp_text date =
    codes "["
    ++ (padded 4 date.year
        ++ (codes "-"
            ++ (padded 2 (pos date.month)
                ++ (codes "-"
                    ++ (padded 2 (pos date.day)
                        ++ (codes " "
                            ++ (padded 2 (pos date.hour)
                                ++ (codes ":"
                                    ++ (padded 2 (pos date.minute)
                                        ++ (codes ":"
                                            ++ (padded 2 (pos date.second)
                                                ++ codes " UTC+0] ")))))))))))

-- The prefix of a line, `none` where the conversion of the time is undefined.
unfoldable pub prefix_text : OsalTimeStatus × ℤ → Option (List ℕ)
prefix_text (OsalTimeStatus.ok, time) = elim (logger_default_epoch_time_to_date time) [
  | none ↦ none
  | some date ↦ some (timestamp_text date)
]
prefix_text (st, time) = some (codes "[timestamp error] ")

-- A complete write, or IO_ERROR.
written : List ℕ → ℕ × StreamStatus × Option Stream → M (LoggerStatus × Option Stream)
written text (n, StreamStatus.ok, s) =
    pure (if n == length text then LoggerStatus.ok else LoggerStatus.io_error, s)
written text (n, st, s) = pure (LoggerStatus.io_error, s)

-- What follows a step that succeeded.
and_ok :
    (Stream → M (LoggerStatus × Option Stream))
    → LoggerStatus × Option Stream
    → M (LoggerStatus × Option Stream)
and_ok next (LoggerStatus.ok, some s) = next s
and_ok next (LoggerStatus.ok, none) = fail
and_ok next (st, s) = pure (st, s)

module _ (file_ops : FileOps) (stdio_ops : StdioOps) where
  write_all : List ℕ → Stream → M (LoggerStatus × Option Stream)
  unfolding written
  write_all text s =
      stream_write file_ops stdio_ops (some s) (some text) (length text) >>= written text

  -- `buf` has 64 bytes.
  write_prefix : OsalTimeStatus → Option (List ℕ) → Stream → M (LoggerStatus × Option Stream)
  unfolding write_all
  write_prefix now none s = fail
  write_prefix OsalTimeStatus.ok (some text) s =
      if leb 64 (length text) then pure (LoggerStatus.io_error, some s) else write_all text s
  write_prefix now (some text) s = write_all text s

  unfoldable pub logger_default_write_timestamp :
      OsalTimeStatus × ℤ → Stream → M (LoggerStatus × Option Stream)
  unfolding write_prefix
  logger_default_write_timestamp now s = write_prefix now.0 (prefix_text now) s

  write_newline : Bool → Stream → M (LoggerStatus × Option Stream)
  unfolding write_all
  write_newline true s = write_all (10 ∷ []) s
  write_newline false s = pure (LoggerStatus.ok, some s)

  flushed : Stream → StreamStatus → M (LoggerStatus × Option Stream)
  flushed s StreamStatus.ok = pure (LoggerStatus.ok, some s)
  flushed s st = pure (LoggerStatus.io_error, some s)

  flush_stream : Stream → M (LoggerStatus × Option Stream)
  unfolding flushed
  flush_stream s = stream_flush file_ops stdio_ops (some s) >>= flushed s

  -- `now` is what `time_ops->now` reports, `append_newline` the configuration.
  unfoldable pub logger_default_log :
      (now : OsalTimeStatus × ℤ) (append_newline : Bool)
      → Option (List ℕ)
      → Stream
      → M (LoggerStatus × Option Stream)
  unfolding and_ok write_all write_newline flush_stream
  logger_default_log now append_newline none s = pure (LoggerStatus.invalid, some s)
  logger_default_log now append_newline (some message) s =
      logger_default_write_timestamp now s
      >>= and_ok (λ s.
        write_all message s
        >>= and_ok (λ s. write_newline append_newline s >>= and_ok flush_stream))

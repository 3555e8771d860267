-- ===== src/Tests/Logs.antt =====
-- Writes through a stream, and a log line, on concrete inputs.
use lex_leo.Prelude.{List, ◌∷◌, ◌≡◌, refl, true, false, some, [], ◌++◌, arith, codes}
use lex_leo.Status.{OsalFileStatus}
use lex_leo.Memory.{World, pure, and_then}
use lex_leo.Memory.Balance.{Returns}
use lex_leo.DynamicBuffer.Contents.{IsValid, own_dbs}
use lex_leo.FsStream.{FileOps}
use lex_leo.StdioStream.{StdioOps}
use lex_leo.DynamicBuffer.Session.{Request, read, write, session}
use lex_leo.Stream.{stream_write}
use lex_leo.Stream.Session.{stream_session, as_stream, stream_session-session}
use lex_leo.Stream.Dispatch.{over, StreamWritten, stream_write-StreamWritten}
use lex_leo.UtcTimestamp.{
  pos, logger_default_is_leap_year, logger_default_days_in_year, days_per_month,
  logger_default_days_in_month, next_year, years_forward, year_of_days, months_forward,
  days_and_seconds, logger_default_epoch_time_to_date,
}
use lex_leo.Logger.{OsalTimeStatus, digits, padded, timestamp_text, prefix_text, logger_default_log}
use lex_leo.Logger.Line.{Appends, ending, logger_default_log-Appends}
use lex_leo.Logger.Lifetime.{LoggerDefault, Logger}
use lex_leo.Tests.{world_of, two_bytes}

-- Files and standard streams that take everything and yield nothing.
abbrev file_ops : FileOps
file_ops = record {
  read = λ f n. pure ([], OsalFileStatus.eof);
  write = λ f src n. pure (n, OsalFileStatus.ok);
  flush = λ f. pure OsalFileStatus.ok;
}

abbrev stdio_ops : StdioOps
stdio_ops = record {
  read = λ k n. pure [];
  write = λ k src n. pure n;
  flush = λ k. pure false;
  error = λ k. pure false;
  eof = λ k. pure true;
}

abbrev buffer_world : World
buffer_world = world_of (own_dbs two_bytes)

valid : IsValid two_bytes.dbuf
valid = record {
  has_buf = refl;
  pos = omega arith;
  bounded = omega arith;
  size = refl;
  order = omega arith;
  fits = omega arith;
}

stream_write-StreamWritten_example :
    Returns
      (λ (k, st, o) w'. StreamWritten 6 two_bytes (codes "abc") 2 buffer_world k st o w')
      (stream_write file_ops stdio_ops
        (some (over 6 two_bytes))
        (some (codes "abc"))
        2
        buffer_world)
stream_write-StreamWritten_example =
    stream_write-StreamWritten file_ops stdio_ops 6 two_bytes (codes "abc") buffer_world 2 valid
      (omega arith) (λ r. omega arith)

leap_day_prefix :
    prefix_text (OsalTimeStatus.ok, pos 68255999) ≡ some (codes "[1972-02-29 23:59:59 UTC+0] ")
unfolding prefix_text timestamp_text padded digits logger_default_epoch_time_to_date
    days_and_seconds year_of_days years_forward next_year months_forward
    logger_default_days_in_month days_per_month logger_default_days_in_year
    logger_default_is_leap_year
leap_day_prefix = refl

logger_default_log-Appends_example :
    Returns
      (λ (st, o) w'.
        Appends 6 two_bytes buffer_world
          (codes "[1972-02-29 23:59:59 UTC+0] " ++ (codes "ready" ++ (ending true ++ [])))
          st
          o
          w')
      (logger_default_log file_ops stdio_ops
        (OsalTimeStatus.ok, pos 68255999)
        true
        (some (codes "ready"))
        (over 6 two_bytes)
        buffer_world)
logger_default_log-Appends_example =
    logger_default_log-Appends file_ops stdio_ops 6 (OsalTimeStatus.ok, pos 68255999) true
      (codes "ready") (codes "[1972-02-29 23:59:59 UTC+0] ") two_bytes buffer_world leap_day_prefix
      valid (λ r. omega arith)

abbrev line_logger : LoggerDefault
line_logger = record { addr = 50; append_newline = true }

abbrev full_logger : Logger
full_logger = record { addr = 51; backend = some line_logger }

-- Two bytes are written behind the one unread, and four are asked for.
abbrev requests : List Request
requests = write (codes "ab") ∷ read 4 ∷ read 0 ∷ []

stream_session-session_example :
    stream_session file_ops stdio_ops requests (over 9 two_bytes) (world_of (own_dbs two_bytes))
    ≡ and_then
        (session requests two_bytes (world_of (own_dbs two_bytes)))
        (as_stream file_ops stdio_ops 9)
stream_session-session_example =
    stream_session-session file_ops stdio_ops 9 requests two_bytes (world_of (own_dbs two_bytes))
      valid (λ r. omega arith)

-- ===== src/Logger/Lifetime/OverFile.antt =====
-- Logging to an open file (logger_default_log of logger_default_cr.c and logger_log of
-- logger_borrower.c).
use lex_leo.Prelude.{
  ℕ, ◌≡◌, ◌≢◌, refl, inl, inr, Bool, true, false, Option, none, some, List, [], ◌∷◌, arith, leb,
  length, Bool-cases,
}
use lex_leo.Status.{StreamStatus}
use lex_leo.Memory.{M, Run, and_then, World}
use lex_leo.Memory.Balance.{Returns, returns, bind, Balanced}
use lex_leo.FsStream.{FileOps}
use lex_leo.FsStream.Neutral.{Neutral}
use lex_leo.StdioStream.{StdioOps}
use lex_leo.Stream.{Stream}
use lex_leo.Stream.OverFile.{OverFile, stream_write-Kept, stream_flush-Balanced}
use lex_leo.UtcTimestamp.{ℤ}
use lex_leo.Logger.{
  LoggerStatus, OsalTimeStatus, prefix_text, written, and_ok, write_all, write_prefix,
  logger_default_write_timestamp, write_newline, flushed, flush_stream, logger_default_log,
}
use lex_leo.Logger.Lifetime.{LoggerDefault, Logger, log_to, logger_log}

module _ (file_ops : FileOps) (stdio_ops : StdioOps) (neutral : Neutral file_ops) (s : Stream)
    (v : OverFile s) (w : World) where
  -- The stream is as before, and nothing was taken or given back since `w`.
  abbrev pub Kept : LoggerStatus × Option Stream → World → Type 0
  Kept (st, o) w' = (o ≡ some s) × Balanced w w'

  written-Kept :
      (text : List ℕ) (n : ℕ) (st : StreamStatus) (o : Option Stream) (w' : World)
      → o ≡ some s
      → Balanced w w'
      → Returns Kept (written text (n, st, o) w')
  unfolding written
  written-Kept text n StreamStatus.ok o w' e b = returns (e, b)
  written-Kept text n _ o w' e b = returns (e, b)

  write_all-Kept :
      (text : List ℕ) (w₁ : World)
      → Balanced w w₁
      → Returns Kept (write_all file_ops stdio_ops text s w₁)
  unfolding write_all
  write_all-Kept text w₁ b =
      bind (stream_write-Kept file_ops stdio_ops neutral s v w₁ text (length text))
        λ (n, st, o) w₂ (e, c). written-Kept text n st o w₂ e (λ r. omega (arith, b r, c r))

  then-Kept :
      (next : Stream → M (LoggerStatus × Option Stream)) {m : Run (LoggerStatus × Option Stream)}
      → Returns Kept m
      → ((w₁ : World) → Balanced w w₁ → Returns Kept (next s w₁))
      → Returns Kept (and_then m (and_ok next))
  unfolding and_ok
  then-Kept next m rest = bind m λ (st, o) w₁ (e, b). step st o w₁ e b
    where
      step :
          (st : LoggerStatus) (o : Option Stream) (w₁ : World)
          → o ≡ some s
          → Balanced w w₁
          → Returns Kept (and_ok next (st, o) w₁)
      step LoggerStatus.ok none w₁ e b = absurd (cc)
      step LoggerStatus.ok (some t) w₁ e b = let same : t ≡ s = cc in rw same (rest w₁ b)
      step _ o w₁ e b = returns (e, b)

  flush_stream-Kept :
      (w₁ : World) → Balanced w w₁ → Returns Kept (flush_stream file_ops stdio_ops s w₁)
  unfolding flush_stream
  flush_stream-Kept w₁ b =
      bind (stream_flush-Balanced file_ops stdio_ops neutral s v w₁)
        λ st w₂ c. done_flush st w₂ (λ r. omega (arith, b r, c r))
    where
      done_flush :
          (st : StreamStatus) (w₂ : World)
          → Balanced w w₂
          → Returns Kept (flushed file_ops stdio_ops s st w₂)
      done_flush StreamStatus.ok w₂ b = returns (refl, b)
      done_flush _ w₂ b = returns (refl, b)

  write_newline-Kept :
      (append_newline : Bool) (w₁ : World)
      → Balanced w w₁
      → Returns Kept (write_newline file_ops stdio_ops append_newline s w₁)
  unfolding write_newline
  write_newline-Kept true w₁ b = write_all-Kept (10 ∷ []) w₁ b
  write_newline-Kept false w₁ b = returns (refl, b)

  write_prefix-Kept :
      (st : OsalTimeStatus) (o : Option (List ℕ)) (w₁ : World)
      → o ≢ none
      → Balanced w w₁
      → Returns Kept (write_prefix file_ops stdio_ops st o s w₁)
  unfolding write_prefix
  write_prefix-Kept st none w₁ defined b = absurd (defined refl)
  write_prefix-Kept OsalTimeStatus.ok (some text) w₁ defined b =
      elim (Bool-cases (leb 64 (length text))) [
        | inl e ↦ rw e (returns (refl, b))
        | inr e ↦ rw e (write_all-Kept text w₁ b)
      ]
  write_prefix-Kept _ (some text) w₁ defined b = write_all-Kept text w₁ b

  module _ (now : OsalTimeStatus × ℤ) (defined : prefix_text now ≢ none) where
    logger_default_log-Kept :
        (append_newline : Bool) (message : List ℕ)
        → Returns Kept (logger_default_log file_ops stdio_ops now append_newline (some message) s w)
    unfolding logger_default_log logger_default_write_timestamp
    logger_default_log-Kept append_newline message =
        then-Kept _ (write_prefix-Kept now.0 (prefix_text now) w defined (λ r. refl)) λ w₁ b₁.
          then-Kept _ (write_all-Kept message w₁ b₁) λ w₂ b₂.
            then-Kept _ (write_newline-Kept append_newline w₂ b₂) λ w₃ b₃. flush_stream-Kept w₃ b₃

    -- A logger with a backend, over an open file, never aborts at a time whose conversion is defined,
    -- where writing and flushing only return: whatever these report, the logger's stream is as before,
    -- and nothing is taken or given back.
    pub logger_log-Kept :
        (l : Logger) (b : LoggerDefault) (message : List ℕ)
        → l.backend ≡ some b
        → Returns Kept (logger_log file_ops stdio_ops now (some l) (some message) s w)
    unfolding logger_log log_to
    logger_log-Kept l b message e = rw e (logger_default_log-Kept b.append_newline message)

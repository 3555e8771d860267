-- ===== src/Stream/Dispatch.antt =====
-- stream_write (stream_borrower.c) on a stream over a dynamic buffer.
use lex_leo.Prelude.{
  ℕ, zero, suc, ◌≤◌, refl, sym, length, Option, none, some, List, append-nil, suc-==-zero,
}
use lex_leo.Status.{StreamStatus}
use lex_leo.Memory.{World, Run, and_then}
use lex_leo.Memory.Balance.{Returns, returns, Delta, Holds}
use lex_leo.DynamicBuffer.{DynamicBufferStream}
use lex_leo.DynamicBuffer.Contents.{IsValid, own_dbs}
use lex_leo.DynamicBuffer.Write.{
  WriteOutcome, all_written, WritePost, dynamic_buffer_stream_write_lem,
}
use lex_leo.FsStream.{FileOps}
use lex_leo.StdioStream.{StdioOps}
use lex_leo.Stream.{Stream, dynamic_buffer, with_dynamic_buffer, stream_write}

-- A stream at `a` over a dynamic buffer.
abbrev pub over : ℕ → DynamicBufferStream → Stream
over a b = record { addr = a; backend = some (dynamic_buffer b) }

-- The outcome of a write to the buffer, seen through the stream.
pub data StreamWritten (a : ℕ) (b : DynamicBufferStream) (src : List ℕ) (n : ℕ) (w : World)
    : ℕ → StreamStatus → Option Stream → World → Type 0 where
  stream_written :
      {k : ℕ} {st : StreamStatus} {c : DynamicBufferStream} {w' : World}
      → WriteOutcome b src n k st c
      → Delta (own_dbs c) (own_dbs b) w w'
      → StreamWritten a b src n w k st (some (over a c)) w'

module _ (file_ops : FileOps) (stdio_ops : StdioOps) (a : ℕ) (b : DynamicBufferStream)
    (src : List ℕ) (w : World) where
  after_write :
      (n : ℕ) (m : Run (ℕ × StreamStatus × Option DynamicBufferStream))
      → Returns (WritePost b src n w) m
      → Returns
          (λ (k, st, o) w'. StreamWritten a b src n w k st o w')
          (and_then m (with_dynamic_buffer file_ops stdio_ops (over a b)))
  unfolding with_dynamic_buffer
  after_write n m (returns {a = (k, st, none)} p) = absurd p
  after_write n m (returns {a = (k, st, some c)} p) = returns (stream_written p.0 p.1)

  -- A write of `n` bytes through a stream over a well-formed dynamic buffer that owns its blocks
  -- never aborts, and has the outcome of the write to the buffer: all bytes appended, or INVALID or
  -- OOM with nothing written and the buffer unchanged. The stream keeps its place and its backend.
  pub stream_write-StreamWritten :
      (n : ℕ)
      → IsValid b.dbuf
      → n ≤ length src
      → Holds (own_dbs b) w
      → Returns
          (λ (k, st, o) w'. StreamWritten a b src n w k st o w')
          (stream_write file_ops stdio_ops (some (over a b)) (some src) n w)
  unfolding stream_write
  stream_write-StreamWritten zero v long own = returns (
      stream_written
        (all_written
          (record { valid = v; content = sym (append-nil _); pending = sym (append-nil _) }))
        (λ r. refl))
  stream_write-StreamWritten (suc n) v long own =
      rw (suc-==-zero n)
        (after_write (suc n) _ (dynamic_buffer_stream_write_lem b src (suc n) w v long own))

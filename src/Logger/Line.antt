-- ===== src/Logger/Line.antt =====
-- What a call of logger_default_log leaves in a dynamic buffer (logger_default_cr.c).
use lex_leo.Prelude.{
  ℕ, ◌≡◌, refl, sym, ap, ◌∙◌, Bool, true, false, Option, some, List, [], ◌∷◌, ◌++◌, append_assoc,
  append-nil, arith, leb, length, take-all, ==_refl, Bool-cases, inl, inr,
}
use lex_leo.Status.{StreamStatus}
use lex_leo.Memory.{World, M}
use lex_leo.Memory.Balance.{Returns, returns, bind, weaken, Delta, Holds}
use lex_leo.DynamicBuffer.{DynamicBufferStream, dynamic_buffer_stream_flush}
use lex_leo.DynamicBuffer.Contents.{IsValid, unread, own_dbs}
use lex_leo.DynamicBuffer.Write.{all_written, too_long, no_memory}
use lex_leo.DynamicBuffer.Session.{Holds-Delta}
use lex_leo.FsStream.{FileOps}
use lex_leo.StdioStream.{StdioOps}
use lex_leo.Stream.{Stream, stream_flush}
use lex_leo.Stream.Dispatch.{over, StreamWritten, stream_written, stream_write-StreamWritten}
use lex_leo.UtcTimestamp.{ℤ}
use lex_leo.Logger.{
  LoggerStatus, OsalTimeStatus, prefix_text, written, and_ok, write_all, write_prefix,
  logger_default_write_timestamp, write_newline, flushed, flush_stream, logger_default_log,
}

-- The buffer after some bytes were appended to those not yet read.
pub record Extended (b : DynamicBufferStream) (w : World) (bytes : List ℕ)
    (b' : DynamicBufferStream) (w' : World) : Type 0 where
  pub valid : IsValid b'.dbuf
  pub pending : unread b'.dbuf ≡ unread b.dbuf ++ bytes
  pub owns : Delta (own_dbs b') (own_dbs b) w w'

-- On OK the whole line was appended; on IO_ERROR a front of it.
pub data Appends (a : ℕ) (b : DynamicBufferStream) (w : World) (line : List ℕ)
    : LoggerStatus → Option Stream → World → Type 0 where
  whole :
      {b' : DynamicBufferStream} {w' : World}
      → Extended b w line b' w'
      → Appends a b w line LoggerStatus.ok (some (over a b')) w'
  cut :
      {b' : DynamicBufferStream} {w' : World} (front rest : List ℕ)
      → line ≡ front ++ rest
      → Extended b w front b' w'
      → Appends a b w line LoggerStatus.io_error (some (over a b')) w'

unchanged : (b : DynamicBufferStream) (w : World) → IsValid b.dbuf → Extended b w [] b w
unchanged b w v = record { valid = v; pending = sym (append-nil _); owns = λ r. refl }

-- The end of a line under the configuration.
abbrev pub ending : Bool → List ℕ
ending true = 10 ∷ []
ending false = []

module _ (file_ops : FileOps) (stdio_ops : StdioOps) (a : ℕ) where
  abbrev Line : DynamicBufferStream → World → List ℕ → LoggerStatus × Option Stream → World → Type 0
  Line b w line (st, o) w' = Appends a b w line st o w'

  written-Line :
      (b : DynamicBufferStream) (w : World) (text : List ℕ)
      → IsValid b.dbuf
      → {k : ℕ} {st : StreamStatus} {o : Option Stream} {w' : World}
      → StreamWritten a b text (length text) w k st o w'
      → Returns (Line b w text) (written text (k, st, o) w')
  unfolding written
  written-Line b w text v (stream_written {c} (all_written e) d) = rw (==_refl (length text)) (
      returns (
        whole (record {
          valid = e.valid;
          pending =
              e.pending ∙ ap (λ l. unread b.dbuf ++ l) (take-all (length text) text (omega arith));
          owns = d;
        })))
  written-Line b w text v (stream_written (too_long h) d) =
      returns (cut [] text refl (record { valid = v; pending = sym (append-nil _); owns = d }))
  written-Line b w text v (stream_written (no_memory h) d) =
      returns (cut [] text refl (record { valid = v; pending = sym (append-nil _); owns = d }))

  write_all-Line :
      (text : List ℕ) (b : DynamicBufferStream) (w : World)
      → IsValid b.dbuf
      → Holds (own_dbs b) w
      → Returns (Line b w text) (write_all file_ops stdio_ops text (over a b) w)
  unfolding write_all
  write_all-Line text b w v own =
      bind
        (stream_write-StreamWritten file_ops stdio_ops a b text w (length text) v (omega arith) own)
        λ (k, st, o) w' p. written-Line b w text v p

  extend :
      (first second : List ℕ) (b c : DynamicBufferStream) (w w₁ : World)
      → Extended b w first c w₁
      → {st : LoggerStatus} {o : Option Stream} {w₂ : World} → Appends a c w₁ second st o w₂
      → Appends a b w (first ++ second) st o w₂
  extend first second b c w w₁ e (whole f) = whole (record {
    valid = f.valid;
    pending =
        f.pending ∙ ap (λ l. l ++ second) e.pending ∙ append_assoc (unread b.dbuf) first second;
    owns = λ r. omega (arith, e.owns r, f.owns r);
  })
  extend first second b c w w₁ e (cut front rest split f) =
      cut (first ++ front) rest (ap (λ l. first ++ l) split ∙ sym (append_assoc first front rest))
        (record {
          valid = f.valid;
          pending =
              f.pending ∙ ap (λ l. l ++ front) e.pending ∙ append_assoc (unread b.dbuf) first front;
          owns = λ r. omega (arith, e.owns r, f.owns r);
        })

  and_ok-Line :
      (first second : List ℕ) (next : Stream → M (LoggerStatus × Option Stream))
      (b : DynamicBufferStream) (w : World)
      → Holds (own_dbs b) w
      → ((c : DynamicBufferStream) (w' : World)
          → IsValid c.dbuf
          → Holds (own_dbs c) w'
          → Returns (Line c w' second) (next (over a c) w'))
      → {st : LoggerStatus} {o : Option Stream} {w₁ : World} → Appends a b w first st o w₁
      → Returns (Line b w (first ++ second)) (and_ok next (st, o) w₁)
  unfolding and_ok
  and_ok-Line first second next b w own step (whole {b' = c} {w' = w₁} e) =
      weaken (step c w₁ e.valid (Holds-Delta (own_dbs b) (own_dbs c) w w₁ own e.owns))
        λ (st, o) w₂ k. extend first second b c w w₁ e k
  and_ok-Line first second next b w own step (cut front rest split e) =
      returns (
        cut front (rest ++ second) (ap (λ l. l ++ second) split ∙ append_assoc front rest second) e)

  flush_stream-Line :
      (b : DynamicBufferStream) (w : World)
      → IsValid b.dbuf
      → Returns (Line b w []) (flush_stream file_ops stdio_ops (over a b) w)
  unfolding flush_stream flushed stream_flush dynamic_buffer_stream_flush
  flush_stream-Line b w v = returns (whole (unchanged b w v))

  write_newline-Line :
      (append_newline : Bool) (b : DynamicBufferStream) (w : World)
      → IsValid b.dbuf
      → Holds (own_dbs b) w
      → Returns
          (Line b w (ending append_newline))
          (write_newline file_ops stdio_ops append_newline (over a b) w)
  unfolding write_newline
  write_newline-Line true b w v own = write_all-Line (10 ∷ []) b w v own
  write_newline-Line false b w v own = returns (whole (unchanged b w v))

  write_prefix-Line :
      (now : OsalTimeStatus) (text : List ℕ) (b : DynamicBufferStream) (w : World)
      → IsValid b.dbuf
      → Holds (own_dbs b) w
      → Returns (Line b w text) (write_prefix file_ops stdio_ops now (some text) (over a b) w)
  unfolding write_prefix
  write_prefix-Line OsalTimeStatus.ok text b w v own = elim (Bool-cases (leb 64 (length text))) [
    | inl long ↦ rw long (returns (cut [] text refl (unchanged b w v)))
    | inr short ↦ rw short (write_all-Line text b w v own)
  ]
  write_prefix-Line OsalTimeStatus.invalid text b w v own = write_all-Line text b w v own
  write_prefix-Line OsalTimeStatus.error text b w v own = write_all-Line text b w v own

  -- A call of the default logger over a well-formed dynamic buffer that owns its blocks, where the
  -- prefix of the line is defined, never aborts. On OK the buffer holds, behind the bytes not yet
  -- read, exactly the prefix, the message and the end of the line; on the only other status, IO_ERROR,
  -- it holds a front of that line. Bytes of earlier lines are neither lost nor changed.
  pub logger_default_log-Appends :
      (now : OsalTimeStatus × ℤ) (append_newline : Bool) (message text : List ℕ)
      (b : DynamicBufferStream) (w : World)
      → prefix_text now ≡ some text
      → IsValid b.dbuf
      → Holds (own_dbs b) w
      → Returns
          (λ (st, o) w'. Appends a b w (text ++ (message ++ (ending append_newline ++ []))) st o w')
          (logger_default_log file_ops stdio_ops now append_newline (some message) (over a b) w)
  unfolding logger_default_log logger_default_write_timestamp
  logger_default_log-Appends now append_newline message text b w defined v own = rw defined (
      bind (write_prefix-Line now.0 text b w v own) λ (st, o) w₁ p.
        and_ok-Line text (message ++ (ending append_newline ++ [])) _ b w own
          (λ c w₂ v' own'. bind (write_all-Line message c w₂ v' own') λ (st, o) w₃ q.
            and_ok-Line message (ending append_newline ++ []) _ c w₂ own'
              (λ d w₄ v'' own''.
                bind (write_newline-Line append_newline d w₄ v'' own'') λ (st, o) w₅ r.
                  and_ok-Line (ending append_newline) [] _ d w₄ own''
                    (λ e w₆ v₆ own₆. flush_stream-Line e w₆ v₆) r)
              q)
          p)

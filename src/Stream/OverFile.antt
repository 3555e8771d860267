-- ===== src/Stream/OverFile.antt =====
-- Writing to a stream over an open file (stream_write and stream_flush of stream_borrower.c).
use lex_leo.Prelude.{ℕ, ◌≡◌, refl, some, List, ◌==◌, Bool-cases, inl, inr}
use lex_leo.Memory.{World}
use lex_leo.Memory.Balance.{Returns, returns, bind, Balanced}
use lex_leo.FsStream.{FileOps, FsStream}
use lex_leo.FsStream.Neutral.{Neutral, fs_stream_write-Balanced, fs_stream_flush-Balanced}
use lex_leo.StdioStream.{StdioOps}
use lex_leo.Stream.{fs, Stream, write_backend, write_to, stream_write, flush_backend, stream_flush}

-- A stream over a file backend with an open file.
pub record OverFile (s : Stream) : Type 0 where
  pub backend : FsStream
  pub file : ℕ
  pub over : s.backend ≡ some (fs backend)
  pub opened : backend.file ≡ some file

module _ (file_ops : FileOps) (stdio_ops : StdioOps) (neutral : Neutral file_ops) (s : Stream)
    (v : OverFile s) (w : World) where
  pub stream_write-Kept :
      (src : List ℕ) (n : ℕ)
      → Returns
          (λ (k, st, o) w'. (o ≡ some s) × Balanced w w')
          (stream_write file_ops stdio_ops (some s) (some src) n w)
  unfolding stream_write write_to write_backend
  stream_write-Kept src n = elim (Bool-cases (n == 0)) [
    | inl e ↦ rw e (returns (refl, λ r. refl))
    | inr e ↦
        rw (e, v.over)
          (bind (fs_stream_write-Balanced file_ops neutral v.backend v.file v.opened w src n e)
            λ res w' b. returns (refl, b))
  ]

  pub stream_flush-Balanced :
      Returns (λ st w'. Balanced w w') (stream_flush file_ops stdio_ops (some s) w)
  unfolding stream_flush flush_backend
  stream_flush-Balanced =
      rw v.over (fs_stream_flush-Balanced file_ops neutral v.backend v.file v.opened w)

-- ===== src/FsStream/Neutral.antt =====
-- File operations that neither take nor give back a resource, and what the file backend then does
-- (fs_stream_write and fs_stream_flush of fs_stream_cr.c).
use lex_leo.Prelude.{ℕ, ◌≡◌, false, some, List, ◌==◌}
use lex_leo.Memory.{World}
use lex_leo.Memory.Balance.{Returns, returns, bind, Balanced}
use lex_leo.FsStream.{FileOps, FsStream, write_file, flush_file, fs_stream_write, fs_stream_flush}

-- Writing and flushing return, whatever they report, and leave the heap and the open files alone.
pub record Neutral (ops : FileOps) : Type 0 where
  pub write :
      (f : ℕ) (src : List ℕ) (n : ℕ) (w : World)
      → Returns (λ _ w'. Balanced w w') (ops.write f src n w)
  pub flush : (f : ℕ) (w : World) → Returns (λ _ w'. Balanced w w') (ops.flush f w)

module _ (ops : FileOps) (neutral : Neutral ops) (s : FsStream) (f : ℕ) (opened : s.file ≡ some f)
    (w : World) where
  pub fs_stream_write-Balanced :
      (src : List ℕ) (n : ℕ)
      → (n == 0) ≡ false
      → Returns (λ _ w'. Balanced w w') (fs_stream_write ops s src n w)
  unfolding fs_stream_write write_file
  fs_stream_write-Balanced src n e =
      rw (e, opened) (bind (neutral.write f src n w) λ res w' b. returns b)

  pub fs_stream_flush-Balanced : Returns (λ _ w'. Balanced w w') (fs_stream_flush ops s w)
  unfolding fs_stream_flush flush_file
  fs_stream_flush-Balanced = rw opened (bind (neutral.flush f w) λ res w' b. returns b)

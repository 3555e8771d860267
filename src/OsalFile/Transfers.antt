-- ===== src/OsalFile/Transfers.antt =====
-- Reading and writing elements of a file through the POSIX backend (osal_file_posix.c).
use lex_leo.Prelude.{
  ℕ, ◌*◌, ◌≤◌, ◌<◌, ◌≡◌, ◌≢◌, ◌⊎◌, inl, inr, Bool, true, false, some, List, arith, ltb, ltb→lt,
  length, Bool-cases,
}
use lex_leo.Status.{OsalFileStatus}
use lex_leo.Memory.{World}
use lex_leo.Memory.Balance.{Returns, returns, bind, Balanced}
use lex_leo.OsalFile.{
  Errno, Transfer, CStdio, OsalFile, write_status, write_file, elements_written, osal_file_write,
}
use lex_leo.OsalFile.Ownership.{map_errno-ne_ok}

-- A transfer of at most `nmemb` elements; fewer are moved only where the error indicator is set, with
-- `errno`, or (`may_end`) the end of the file was met.
pub record IsTransfer (may_end : Bool) (nmemb : ℕ) (t : Transfer) : Type 0 where
  pub within : t.count ≤ nmemb
  pub short :
      t.count < nmemb
      → ((t.error ≡ true) × (t.errno ≢ Errno.zero))
        ⊎ ((may_end ≡ true) × (t.error ≡ false) × (t.eof ≡ true))

-- What POSIX says of `fread` and `fwrite`, for elements of a positive size, where the error indicator of
-- the stream is clear (`clear`) before the call: an indicator that is set behind it, and `errno`, are
-- then of this call. The bytes are those of the elements that the call counts, and it leaves the heap
-- and the open files of the program alone.
pub record Transfers (c : CStdio) : Type 1 where
  pub clear : (f : ℕ) (w : World) → Type 0
  pub fread :
      (size n f : ℕ) (w : World)
      → 0 < size
      → clear f w
      → Returns
          (λ (bytes, t) w'. IsTransfer true n t × (length bytes ≡ t.count * size) × Balanced w w')
          (c.fread size n f w)
  pub fwrite :
      (src : List ℕ) (size n f : ℕ) (w : World)
      → 0 < size
      → clear f w
      → Returns (λ t w'. IsTransfer false n t × Balanced w w') (c.fwrite src size n f w)

-- The outcome of a transfer of `n` elements: all of them with OK, or fewer with another status.
pub data Moved (n : ℕ) : ℕ → OsalFileStatus → Type 0 where
  all_moved : {k : ℕ} → k ≡ n → Moved n k OsalFileStatus.ok
  some_moved : {k : ℕ} {st : OsalFileStatus} → k < n → st ≢ OsalFileStatus.ok → Moved n k st

write_status-Moved :
    (n : ℕ) (t : Transfer) → IsTransfer false n t → Moved n t.count (write_status n t)
unfolding write_status
write_status-Moved n t v = elim (Bool-cases (ltb t.count n)) [
  | inr e ↦ rw e (all_moved (let h = v.within in ground arith))
  | inl e ↦ elim (v.short (ltb→lt _ _ e)) [
    | inl (q, ne) ↦ rw (e, q) (some_moved (ltb→lt _ _ e) (map_errno-ne_ok t.errno ne))
    | inr (m, q, f) ↦ absurd (cc m)
  ]
]

module _ (c : CStdio) (laws : Transfers c) where
  -- Over such a library a write to an open file whose error indicator is clear takes all the elements with OK, or fewer with a status
  -- that is not OK.
  osal_file_write-Moved :
      (src : List ℕ) (size n f : ℕ) (s : OsalFile) (w : World)
      → s.fp ≡ some f
      → 0 < size
      → laws.clear f w
      → Returns
          (λ (k, st) w'. Moved n k st × Balanced w w')
          (osal_file_write c (some src) size n (some s) w)
  unfolding osal_file_write write_file elements_written
  osal_file_write-Moved src size n f s w e p q =
      rw e
        (bind (laws.fwrite src size n f w p q) λ t w' (v, b). returns (write_status-Moved n t v, b))

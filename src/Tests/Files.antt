-- ===== src/Tests/Files.antt =====
-- The POSIX file backend on concrete inputs.
use lex_leo.Prelude.{
  ◌*◌, Bool, replicate, length-replicate, ℕ, ◌⊎◌, ◌≡◌, ◌≢◌, refl, true, false, some, [], ◌∷◌, arith,
  codes,
}
use lex_leo.Status.{OsalFileStatus}
use lex_leo.Memory.{World, done, block, file, granted, pure, ◌>>=◌, close_file}
use lex_leo.Memory.Balance.{Returns, returns, bind, Delta, Builds, close_file-Delta}
use lex_leo.OsalFile.{Errno, Transfer, CStdio, osal_file_open, osal_file_close}
use lex_leo.OsalFile.Ownership.{
  file_open, IsPosix, own_osal, osal_file_open-Builds, osal_file_close-Kept,
}
use lex_leo.OsalFile.Transfers.{IsTransfer, Transfers}
use lex_leo.Tests.{world_of, empty_world}

abbrev all_moved : ℕ → Transfer
all_moved n = record { count = n; error = false; eof = false; errno = Errno.zero }

-- A C library in which every call succeeds.
abbrev working : CStdio
working = record {
  fopen = λ p m w. done (some w.next, Errno.zero) (granted (file w.next) w);
  fclose = λ f. close_file f >>= λ st. pure (false, Errno.zero);
  fflush = λ f. pure (false, Errno.zero);
  mkdir = λ p. pure (false, Errno.zero);
  fread = λ size n f. pure (replicate (n * size) 0, all_moved n);
  fwrite = λ src size n f. pure (all_moved n);
  fgets = λ n f. pure (some [], all_moved n);
}

working-IsPosix : IsPosix working
working-IsPosix = record {
  fopen = λ p m w. returns (file_open w.next Errno.zero (λ r. omega arith));
  fclose = λ f w h. bind (close_file-Delta f w h) λ st w' d. returns (λ e. absurd (cc e), d);
}

osal_file_open-Builds_example :
    Returns
      (Builds OsalFileStatus.ok own_osal (λ s. (f : ℕ) × (s.fp ≡ some f)) empty_world)
      (osal_file_open working (some (codes "leo.log")) (some (codes "ab")) empty_world)
osal_file_open-Builds_example =
    osal_file_open-Builds working working-IsPosix (some (codes "leo.log")) (some (codes "ab"))
      empty_world

abbrev open_world : World
open_world = world_of (block 1 ∷ file 2 ∷ [])

osal_file_close-Kept_example :
    Returns
      (λ st w'.
        ((st ≡ OsalFileStatus.ok)
          × Delta [] (own_osal (record { addr = 1; fp = some 2 })) open_world w')
        ⊎ ((st ≢ OsalFileStatus.ok) × Delta [] (file 2 ∷ []) open_world w'))
      (osal_file_close working (some (record { addr = 1; fp = some 2 })) open_world)
osal_file_close-Kept_example =
    osal_file_close-Kept working working-IsPosix 1 2 open_world (λ r. omega arith)

all_moved-IsTransfer : (b : Bool) (n : ℕ) → IsTransfer b n (all_moved n)
all_moved-IsTransfer b n = record { within = omega arith; short = λ h. absurd (omega arith) }

working-Transfers : Transfers working
working-Transfers = record {
  clear = λ f w. Unit;
  fread = λ size n f w p q.
      returns (all_moved-IsTransfer true n, length-replicate (n * size) 0, λ r. refl);
  fwrite = λ src size n f w p q. returns (all_moved-IsTransfer false n, λ r. refl);
}

-- ===== src/Memory.antt =====
-- The world that the injected operation tables act on: `osal_mem_ops_t` (calloc, realloc, free) and
-- the open and close of `osal_file_ops_t`. What a call answers is not fixed: `grants` says which
-- allocation requests succeed, `answers` what the file calls report, `junk` which bytes a grown
-- block holds behind the old ones. A failed LEXLEO_ASSERT, the release of something that is not
-- live and any other undefined behaviour is `abort`.
pub mod Balance
pub mod Release
use lex_leo.Prelude.{
  ℕ, suc, ◌+◌, ◌-◌, Bool, true, false, Option, none, some, List, [], ◌∷◌, ◌++◌, ltb, ◌==◌,
  if◌then◌else◌, take,
}
use lex_leo.Prelude.{zero}
use lex_leo.Status.{OsalFileStatus}

-- What a component can own: a heap block, or an open file, which is a FILE of the C library together
-- with the OSAL_FILE block round it, both at one address.
pub data Resource : Type 0 where
  block : ℕ → Resource
  file : ℕ → Resource

abbrev pub same : Resource → Resource → Bool
same (block a) (block b) = a == b
same (file a) (file b) = a == b
same _ _ = false

-- `live r` is how often `r` is held: 1 for a live block or an open file, 0 else. `next` counts the
-- requests made so far, and names the next resource. `closes` are the closes of files made so far, the
-- last one first, with what they reported.
pub record World : Type 0 where
  pub next : ℕ
  pub live : Resource → ℕ
  pub grants : ℕ → Bool
  pub answers : ℕ → OsalFileStatus
  pub junk : ℕ → ℕ
  pub closes : List (ℕ × OsalFileStatus)

pub data Run (A : Type 0) : Type 0 where
  done : A → World → Run A
  abort : Run A

abbrev pub M : Type 0 → Type 0
M A = World → Run A

abbrev pub pure : {A : Type 0} → A → M A
pure = done

abbrev pub fail : {A : Type 0} → M A
fail w = abort

module _ {A B : Type 0} where
  abbrev pub and_then : Run A → (A → M B) → Run B
  and_then (done a w) k = k a w
  and_then abort k = abort

  infixl 5 ◌>>=◌ ◌>>◌
  abbrev pub ◌>>=◌ : M A → (A → M B) → M B
  m >>= k = λ w. and_then (m w) k

  abbrev pub ◌>>◌ : M A → M B → M B
  m >> k = m >>= λ _. k

-- LEXLEO_ASSERT
abbrev pub assert : Bool → M (Unit {0})
assert true = pure tt
assert false = fail

abbrev pub unit : Resource → Resource → ℕ
unit p r = if same p r then 1 else 0

-- The world after a request that took `r`, and after one that took nothing.
abbrev pub granted : Resource → World → World
granted p w = record w { next = suc w.next; live = λ r. w.live r + unit p r }

abbrev pub refused : World → World
refused w = record w { next = suc w.next }

abbrev pub released : Resource → World → World
released p w = record w { live = λ r. w.live r - unit p r }

-- `mem_ops->calloc(1, n)`: the address of a fresh block, or `NULL`.
unfoldable pub calloc : M (Option ℕ)
calloc w =
    if w.grants w.next then done (some w.next) (granted (block w.next) w) else done none (refused w)

-- `mem_ops->free(p)` of a block.
unfoldable pub free : ℕ → M (Unit {0})
free p w = if ltb 0 (w.live (block p)) then done tt (released (block p) w) else abort

-- The first `n` of the indeterminate bytes.
unfoldable pub indeterminate : (ℕ → ℕ) → ℕ → List ℕ
indeterminate junk zero = []
indeterminate junk (suc n) = junk n ∷ indeterminate junk n

-- `mem_ops->realloc(p, n)` of a block that holds `bytes`: the new address and its `n` bytes, of
-- which as many as fit are the old ones; on failure `NULL`, and the old block stays. Of `NULL` it
-- allocates.
unfoldable pub realloc : Option ℕ → List ℕ → ℕ → M (Option (ℕ × List ℕ))
realloc none bytes n w =
    if w.grants w.next
    then done (some (w.next, take n (indeterminate w.junk n))) (granted (block w.next) w)
    else done none (refused w)
realloc (some p) bytes n w =
    if ltb 0 (w.live (block p))
    then (if w.grants w.next
        then done (some (w.next, take n (bytes ++ indeterminate w.junk n)))
            (granted (block w.next) (released (block p) w))
        else done none (refused w))
    else abort

-- `file_ops->open`: the status, and the handle if the status is OK.
unfoldable pub open_file : M (OsalFileStatus × Option ℕ)
open_file w = elim (w.answers w.next) [
  | OsalFileStatus.ok ↦ done (OsalFileStatus.ok, some w.next) (granted (file w.next) w)
  | st ↦ done (st, none) (refused w)
]

-- The blocks that the failed closes of a list have left: they stay allocated, and nothing refers to
-- them any more.
abbrev pub orphans : List (ℕ × OsalFileStatus) → Resource → ℕ
orphans [] r = 0
orphans ((p, OsalFileStatus.ok) ∷ closes) r = orphans closes r
orphans ((p, st) ∷ closes) r = unit (block p) r + orphans closes r

-- What is allocated or open in a world, whether or not something still holds it.
abbrev pub allocated : World → Resource → ℕ
allocated w r = w.live r + orphans w.closes r

-- `file_ops->close`: the FILE is closed whatever the status, and no component keeps the handle. On OK
-- the OSAL_FILE block is released too; on any other status it is an orphan from then on.
unfoldable pub close_file : ℕ → M OsalFileStatus
close_file p w =
    if ltb 0 (w.live (file p))
    then done (w.answers w.next)
        (record (refused (released (file p) w)) { closes = (p, w.answers w.next) ∷ w.closes })
    else abort

-- `file_ops->mkdir`.
unfoldable pub make_dir : (pathname : List ℕ) → M OsalFileStatus
make_dir pathname w = done (w.answers w.next) (refused w)

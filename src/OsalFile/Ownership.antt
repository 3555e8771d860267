-- ===== src/OsalFile/Ownership.antt =====
-- What the opening and closing of a file do to the heap and the open files (osal_file_posix.c).
use lex_leo.Prelude.{
  ℕ, ◌<◌, ◌≡◌, ◌≢◌, ◌⊎◌, refl, inl, inr, Bool, true, false, not, ◌&&◌, Option, none, some, List, [],
  ◌∷◌, arith, ◌==◌, length, Bool-cases,
}
use lex_leo.Status.{OsalFileStatus}
use lex_leo.Memory.{World, Resource, block, file}
use lex_leo.Memory.Balance.{
  Returns, returns, bind, Delta, Holds, Balanced, built, failed, Builds, Allocated, fresh,
  exhausted, calloc-Allocated, free-held, unit_self,
}
use lex_leo.FsStream.{supported_mode}
use lex_leo.OsalFile.{
  Errno, osal_file_map_errno, CStdio, OsalFile, file_opened, wrapper_made, open_checked,
  osal_file_open, file_closed, close_wrapped, osal_file_close,
}

-- An open file, or an error with its number.
pub data FileOpened (w : World) : Option ℕ × Errno → World → Type 0 where
  file_open :
      (f : ℕ) (e : Errno) {w' : World} → Delta (file f ∷ []) [] w w' → FileOpened w (some f, e) w'
  open_error : (e : Errno) {w' : World} → e ≢ Errno.zero → Balanced w w' → FileOpened w (none, e) w'

-- What POSIX says of `fopen` and `fclose`: a failure sets `errno`, and `fclose` disassociates the
-- stream whether or not it reports a failure.
pub record IsPosix (c : CStdio) : Type 0 where
  pub fopen : (p m : List ℕ) (w : World) → Returns (FileOpened w) (c.fopen p m w)
  pub fclose :
      (f : ℕ) (w : World)
      → 0 < w.live (file f)
      → Returns
          (λ (bad, e) w'. (bad ≡ true → e ≢ Errno.zero) × Delta [] (file f ∷ []) w w')
          (c.fclose f w)

abbrev pub own_osal : OsalFile → List Resource
own_osal s = block s.addr ∷ own_fp s.fp
  where
    own_fp : Option ℕ → List Resource
    own_fp none = []
    own_fp (some f) = file f ∷ []

-- Only a zero `errno` is reported as OK.
pub map_errno-ne_ok : (e : Errno) → e ≢ Errno.zero → osal_file_map_errno e ≢ OsalFileStatus.ok
unfolding osal_file_map_errno
map_errno-ne_ok Errno.zero h = absurd (h refl)
map_errno-ne_ok _ h = cc

module _ (c : CStdio) (posix : IsPosix c) where
  abbrev Opens : World → OsalFileStatus × Option OsalFile → World → Type 0
  Opens = Builds OsalFileStatus.ok own_osal (λ s. (f : ℕ) × (s.fp ≡ some f))

  file_opened-Opens :
      (w w₁ : World) (tmp : ℕ)
      → Delta (block tmp ∷ []) [] w w₁
      → {o : Option ℕ × Errno} {w₂ : World} → FileOpened w₁ o w₂
      → Returns (Opens w) (file_opened c tmp o w₂)
  unfolding file_opened
  file_opened-Opens w w₁ tmp d (file_open f e d₂) =
      returns (built (f, refl) (λ r. omega (arith, d r, d₂ r)))
  file_opened-Opens w w₁ tmp d (open_error e {w' = w₂} ne bal) =
      bind (free-held tmp [] w₂ (λ r. omega (arith, d r, bal r))) λ _ w₃ (d₃, _).
        returns (failed (map_errno-ne_ok e ne) (λ r. omega (arith, d r, bal r, d₃ r)))

  wrapper_made-Opens :
      (p m : List ℕ) (w : World) {o : Option ℕ} {w₁ : World}
      → Allocated w o w₁
      → Returns (Opens w) (wrapper_made c p m o w₁)
  unfolding wrapper_made
  wrapper_made-Opens p m w (fresh tmp {w' = w₁} d) =
      bind (posix.fopen p m w₁) λ o w₂ k. file_opened-Opens w w₁ tmp d k
  wrapper_made-Opens p m w (exhausted bal) = returns (failed (cc) bal)

  -- Where the C library keeps to POSIX, `osal_file_open` never aborts, whatever its arguments: with OK
  -- there is a handle that owns its block and its file, and with any other status nothing is held; OK
  -- without a handle does not occur.
  pub osal_file_open-Builds :
      (pathname mode : Option (List ℕ)) (w : World)
      → Returns
          (Builds OsalFileStatus.ok own_osal (λ s. (f : ℕ) × (s.fp ≡ some f)) w)
          (osal_file_open c pathname mode w)
  unfolding osal_file_open open_checked
  osal_file_open-Builds (some p) (some m) w =
      elim (Bool-cases (not (length p == 0) && supported_mode m)) [
        | inl e ↦ rw e (bind (calloc-Allocated w) λ o w₁ a. wrapper_made-Opens p m w a)
        | inr e ↦ rw e (returns (failed (cc) (λ r. refl)))
      ]
  osal_file_open-Builds (some p) none w = returns (failed (cc) (λ r. refl))
  osal_file_open-Builds none m w = returns (failed (cc) (λ r. refl))

  -- Where the C library keeps to POSIX, closing a handle that owns its block and its file never aborts.
  -- Either the status is OK and both are given back; or it is not, the file is given back, and the
  -- block of the handle is still held.
  pub osal_file_close-Kept :
      (p f : ℕ) (w : World)
      → Holds (own_osal (record { addr = p; fp = some f })) w
      → Returns
          (λ st w'.
            ((st ≡ OsalFileStatus.ok) × Delta [] (own_osal (record { addr = p; fp = some f })) w w')
            ⊎ ((st ≢ OsalFileStatus.ok) × Delta [] (file f ∷ []) w w'))
          (osal_file_close c (some (record { addr = p; fp = some f })) w)
  unfolding osal_file_close close_wrapped
  osal_file_close-Kept p f w h =
      bind (posix.fclose f w (omega (arith, h (file f), unit_self (file f))))
        λ (bad, e) w₁ (sets, d). go bad e w₁ sets d
    where
      go :
          (bad : Bool) (e : Errno) (w₁ : World)
          → (bad ≡ true → e ≢ Errno.zero)
          → Delta [] (file f ∷ []) w w₁
          → Returns
              (λ st w'.
                ((st ≡ OsalFileStatus.ok)
                  × Delta [] (own_osal (record { addr = p; fp = some f })) w w')
                ⊎ ((st ≢ OsalFileStatus.ok) × Delta [] (file f ∷ []) w w'))
              (file_closed c p (bad, e) w₁)
      go true e w₁ sets d = returns (inr (map_errno-ne_ok e (sets refl), d))
      go false e w₁ sets d =
          bind (free-held p [] w₁ (λ r. omega (arith, h r, d r)))
            λ _ w₂ (d₂, _). returns (inl (refl, λ r. omega (arith, d r, d₂ r)))

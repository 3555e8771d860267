-- ===== src/LogPath/Bounds.antt =====
-- What the resolution of the log path yields and what it holds afterwards (lexleo_app_log_path.c).
use lex_leo.Prelude.{
  ℕ, ◌<◌, ◌≡◌, ◌≢◌, refl, true, false, Option, none, some, List, [], ◌∷◌, ◌++◌, arith, leb, ◌==◌,
  if◌then◌else◌, length, codes, Bool, Bool-cases, inl, inr,
}
use lex_leo.Status.{OsalFileStatus}
use lex_leo.Memory.{M, refused, World, make_dir, file}
use lex_leo.Memory.Balance.{
  Returns, returns, bind, weaken, Balanced, Opened, opened_ok, not_opened, open_file-Opened,
  close_file-Delta, unit_self,
}
use lex_leo.LogPath.{
  before_last_slash, dirs_of, lexleo_app_copy_string, copied, scan_config, read_config,
  lexleo_app_try_read_log_path_from_config, lexleo_app_platform_resolve_default_log_path,
  parent_dirs, make_dirs, when_made, make_all, lexleo_app_platform_ensure_log_parent_dir_exists,
  ensured, or_default, lexleo_app_resolve_log_path,
}

pub parent_dirs-nil : parent_dirs [] ≡ none
unfolding parent_dirs before_last_slash dirs_of
parent_dirs-nil = refl

-- A text that fits a buffer of `n` bytes with its terminating zero, or none.
abbrev pub Fitting : ℕ → Option (List ℕ) → Type 0
Fitting n none = Unit
Fitting n (some p) = length p < n

copy-Fitting : (n : ℕ) (src : List ℕ) → Fitting n (lexleo_app_copy_string n src)
unfolding lexleo_app_copy_string
copy-Fitting n src = elim (Bool-cases (leb n (length src))) [
  | inl e ↦ rw e tt
  | inr e ↦ rw e (ground arith)
]

copied-Fitting : (n : ℕ) (o : Option (List ℕ)) → Fitting n (copied n o)
unfolding copied
copied-Fitting n none = tt
copied-Fitting n (some val) = copy-Fitting n val

default-Fitting :
    (home : Option (List ℕ)) (n : ℕ)
    → Fitting n (lexleo_app_platform_resolve_default_log_path home n)
unfolding lexleo_app_platform_resolve_default_log_path
default-Fitting none n = tt
default-Fitting (some []) n = tt
default-Fitting (some (c ∷ cs)) n =
    copy-Fitting n ((c ∷ cs) ++ codes "/.local/state/lexleo/lexleo.log")

-- A path that fits its buffer and has parent directories, or none; nothing is held.
pub data Resolved (n : ℕ) (w : World) : Option (List ℕ) → World → Type 0 where
  resolved :
      {p : List ℕ} {w' : World} (dirs : List (List ℕ))
      → length p < n
      → parent_dirs p ≡ some dirs
      → Balanced w w'
      → Resolved n w (some p) w'
  unresolved : {w' : World} → Balanced w w' → Resolved n w none w'

when_made-Balanced :
    (st : OsalFileStatus) (rest : M Bool) (w : World)
    → Returns (λ b w'. Balanced w w') (rest w)
    → Returns (λ b w'. Balanced w w') (when_made st rest w)
unfolding when_made
when_made-Balanced OsalFileStatus.ok rest w h = h
when_made-Balanced OsalFileStatus.exists rest w h = h
when_made-Balanced _ rest w h = returns (λ r. refl)

make_dirs-Balanced :
    (ds : List (List ℕ)) (w : World) → Returns (λ b w'. Balanced w w') (make_dirs ds w)
unfolding make_dirs make_dir
make_dirs-Balanced [] w = returns (λ r. refl)
make_dirs-Balanced (d ∷ ds) w =
    when_made-Balanced (w.answers w.next) (make_dirs ds) (refused w)
      (make_dirs-Balanced ds (refused w))

make_all-Balanced :
    (o : Option (List (List ℕ))) (w : World) → Returns (λ b w'. Balanced w w') (make_all o w)
unfolding make_all
make_all-Balanced none w = returns (λ r. refl)
make_all-Balanced (some ds) w = make_dirs-Balanced ds w

module _ (n : ℕ) (w : World) where
  -- The end of a resolution whose call of `make_all` found the parents of `p`.
  kept :
      (p : List ℕ) (ok : Bool) (w' : World) (dirs : Option (List (List ℕ)))
      → parent_dirs p ≡ dirs
      → length p < n
      → (dirs ≡ none → ok ≡ false)
      → Balanced w w'
      → Resolved n w (if ok then some p else none) w'
  kept p true w' none e short denied b = absurd (cc (denied refl))
  kept p true w' (some dirs) e short denied b = resolved dirs short e b
  kept p false w' dirs e short denied b = unresolved b

  make_all_sound :
      (o : Option (List (List ℕ))) (w' : World)
      → Balanced w w'
      → Returns (λ ok w''. (o ≡ none → ok ≡ false) × Balanced w w'') (make_all o w')
  unfolding make_all
  make_all_sound none w' b = returns (λ e. refl, b)
  make_all_sound (some ds) w' b =
      weaken (make_dirs-Balanced ds w') λ ok w'' c. (λ e. absurd (cc), λ r. omega (arith, b r, c r))

  ensured-Resolved :
      (o : Option (List ℕ)) (w' : World)
      → Fitting n o
      → Balanced w w'
      → Returns (Resolved n w) (ensured o w')
  unfolding ensured lexleo_app_platform_ensure_log_parent_dir_exists
  ensured-Resolved none w' f b = returns (unresolved b)
  ensured-Resolved (some p) w' f b =
      bind (make_all_sound (parent_dirs p) w' b)
        λ ok w'' (denied, c). returns (kept p ok w'' (parent_dirs p) refl f denied c)

  or_default-Resolved :
      (home o : Option (List ℕ)) (w' : World)
      → Fitting n o
      → Balanced w w'
      → Returns (Resolved n w) (or_default n home o w')
  unfolding or_default
  or_default-Resolved home (some p) w' f b = ensured-Resolved (some p) w' f b
  or_default-Resolved home none w' f b = ensured-Resolved _ w' (default-Fitting home n) b

  read_config-Fitting :
      (lines : List (List ℕ × OsalFileStatus)) {st : OsalFileStatus} {o : Option ℕ} {w' : World}
      → Opened w st o w'
      → Returns (λ o w''. Fitting n o × Balanced w w'') (read_config n lines (st, o) w')
  unfolding read_config
  read_config-Fitting lines (opened_ok f {w'} d) =
      bind (close_file-Delta f w' (omega (arith, d (file f), unit_self (file f)))) λ _ w'' e.
        returns (copied-Fitting n (scan_config false lines), λ r. omega (arith, d r, e r))
  read_config-Fitting lines (not_opened {st} {w'} ne b) = other st ne
    where
      other :
          (st : OsalFileStatus)
          → st ≢ OsalFileStatus.ok
          → Returns (λ o w''. Fitting n o × Balanced w w'') (read_config n lines (st, none) w')
      other OsalFileStatus.ok ne = absurd (ne refl)
      other _ ne = returns (tt, b)

-- Whatever the configuration file contains, whether or not it can be opened, and whatever `mkdir`
-- answers, the resolution of the log path into a buffer of `out_size` bytes never aborts and leaves
-- nothing open. A path that it yields is shorter than the buffer and has parent directories.
pub lexleo_app_resolve_log_path-Resolved :
    (lines : List (List ℕ × OsalFileStatus)) (home : Option (List ℕ)) (out_size : ℕ) (w : World)
    → Returns (Resolved out_size w) (lexleo_app_resolve_log_path lines home out_size w)
unfolding lexleo_app_resolve_log_path lexleo_app_try_read_log_path_from_config
lexleo_app_resolve_log_path-Resolved lines home out_size w = elim (Bool-cases (out_size == 0)) [
  | inl e ↦ rw e (returns (unresolved (λ r. refl)))
  | inr e ↦ rw e (
      bind (bind (open_file-Opened w) λ (st, o) w' op. read_config-Fitting out_size w lines op)
        λ o w' (f, b). or_default-Resolved out_size w home o w' f b)
]

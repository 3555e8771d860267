-- ===== src/LogPath.antt =====
-- The path of the log file: lexleo_app_log_path.c and platform/lexleo_app_log_path_linux.c
-- (src/lexleo_app/src/cr). A C string is the list of its bytes without the terminating zero; what a
-- failed call leaves in its output buffer is not modelled.
pub mod Trim
pub mod Bounds
pub mod Parents
pub mod Platforms
pub mod Config
use lex_leo.Prelude.{
  ℕ, zero, suc, ◌-◌, Bool, true, false, not, ◌&&◌, ◌||◌, Option, none, some, List, [], ◌∷◌, ◌++◌,
  ltb, leb, ◌==◌, if◌then◌else◌, is_some, length, codes, text_eq,
}
use lex_leo.Status.{OsalFileStatus}
use lex_leo.Memory.{M, pure, fail, ◌>>=◌, ◌>>◌, open_file, close_file, make_dir}

-- A buffer read as a string ends at its first zero.
unfoldable pub c_string : List ℕ → List ℕ
c_string [] = []
c_string (c ∷ cs) = if c == 0 then [] else c ∷ c_string cs

-- `isspace` in the C locale.
unfoldable pub osal_isspace : ℕ → Bool
osal_isspace c = (c == 32) || (leb 9 c && leb c 13)

unfoldable pub skip_spaces : List ℕ → List ℕ
skip_spaces [] = []
skip_spaces (c ∷ cs) = if osal_isspace c then skip_spaces cs else c ∷ cs

-- The loop from the end, as a recursion to the left: a space goes if nothing is left behind it.
unfoldable pub cut_spaces : List ℕ → List ℕ
cut_spaces [] = []
cut_spaces (c ∷ cs) = elim (cut_spaces cs) as (λ _. List ℕ) [
  | [] ↦ if osal_isspace c then [] else c ∷ []
  | d ∷ ds ↦ c ∷ (d ∷ ds)
]

unfoldable pub lexleo_app_trim_in_place : List ℕ → List ℕ
unfolding skip_spaces cut_spaces osal_isspace
lexleo_app_trim_in_place s = cut_spaces (skip_spaces s)

-- `snprintf(out, out_size, "%s", src)`, which fails where it would truncate.
unfoldable pub lexleo_app_copy_string : (out_size : ℕ) (src : List ℕ) → Option (List ℕ)
lexleo_app_copy_string out_size src = if leb out_size (length src) then none else some src

-- `osal_strchr`: what stands before and behind the first occurrence.
unfoldable pub split_at_first : ℕ → List ℕ → Option (List ℕ × List ℕ)
split_at_first x [] = none
split_at_first x (c ∷ cs) =
    if c == x
    then some ([], cs)
    else elim (split_at_first x cs) as (λ _. Option (List ℕ × List ℕ)) [
      | none ↦ none
      | some (before, behind) ↦ some (c ∷ before, behind)
    ]

-- The text before the last byte, and that byte.
unfoldable pub split_last : ℕ → List ℕ → List ℕ × ℕ
split_last c [] = ([], c)
split_last c (d ∷ ds) = let (front, last) = split_last d ds in (c ∷ front, last)

-- A value without the quotes round it, if it has two equal ones.
unfoldable pub unquoted : List ℕ → List ℕ
unfolding split_last
unquoted [] = []
unquoted (c ∷ []) = c ∷ []
unquoted (c ∷ (d ∷ ds)) =
    let (front, last) = split_last d ds in
    if (c == 34 || c == 39) && last == c then front else c ∷ (d ∷ ds)

-- What a line decides: to read on, in a section or not, or to end with a path or without.
pub data Verdict : Type 0 where
  read_on : (in_logger_section : Bool) → Verdict
  found : (val : List ℕ) → Verdict
  give_up : Verdict

entry_verdict : (key val : List ℕ) → Verdict
entry_verdict key [] = if text_eq key (codes "log_path") then give_up else read_on true
entry_verdict key (c ∷ cs) =
    if text_eq key (codes "log_path") then found (unquoted (c ∷ cs)) else read_on true

key_verdict : Option (List ℕ × List ℕ) → Verdict
unfolding entry_verdict
key_verdict none = read_on true
key_verdict (some (key, val)) =
    entry_verdict (lexleo_app_trim_in_place key) (lexleo_app_trim_in_place val)

-- A line after the trimming.
unfoldable pub line_verdict : (in_logger_section : Bool) → List ℕ → Verdict
unfolding key_verdict
line_verdict inside [] = read_on inside
line_verdict inside (c ∷ cs) =
    if c == 59 || c == 35
    then read_on inside
    else if c == 91
    then read_on (text_eq (c ∷ cs) (codes "[logger]"))
    else if inside
    then key_verdict (split_at_first 61 (c ∷ cs))
    else read_on false

-- The loop over what `gets` stores, with its status, until it returns `NULL`.
unfoldable pub scan_config :
    (in_logger_section : Bool) → List (List ℕ × OsalFileStatus) → Option (List ℕ)
scan_config inside [] = none
scan_config inside ((line, OsalFileStatus.ok) ∷ rest) =
    elim (line_verdict inside (lexleo_app_trim_in_place (c_string line)))
      as (λ _. Option (List ℕ)) [
        | read_on inside' ↦ scan_config inside' rest
        | found val ↦ some val
        | give_up ↦ none
      ]
scan_config inside ((line, st) ∷ rest) = none

copied : ℕ → Option (List ℕ) → Option (List ℕ)
copied out_size none = none
copied out_size (some val) = lexleo_app_copy_string out_size val

read_config : ℕ → List (List ℕ × OsalFileStatus) → OsalFileStatus × Option ℕ → M (Option (List ℕ))
unfolding copied
read_config out_size lines (OsalFileStatus.ok, some f) = do
  close_file f
  pure (copied out_size (scan_config false lines))
read_config out_size lines (OsalFileStatus.ok, none) = fail
read_config out_size lines (st, o) = pure none

-- `lines` is what `gets` answers for the configuration file.
unfoldable pub lexleo_app_try_read_log_path_from_config :
    (out_size : ℕ) (lines : List (List ℕ × OsalFileStatus)) → M (Option (List ℕ))
unfolding read_config
lexleo_app_try_read_log_path_from_config out_size lines = open_file >>= read_config out_size lines

continued : ℕ → List (List ℕ × OsalFileStatus) → List (List ℕ × OsalFileStatus)
continued c [] = (c ∷ [], OsalFileStatus.ok) ∷ []
continued c ((l, st) ∷ ls) = (c ∷ l, st) ∷ ls

-- What `gets` stores, call after call, of the bytes of a file that is read without an error: a call
-- ends behind a newline, or where its buffer has no room left. `line` has 255 bytes, the last of them
-- for the terminating zero.
unfoldable pub gets_lines : (room : ℕ) (bytes : List ℕ) → List (List ℕ × OsalFileStatus)
unfolding continued
gets_lines room [] = []
gets_lines room (c ∷ cs) = elim (c == 10 || leb room 1) as (λ _. List (List ℕ × OsalFileStatus)) [
  | true ↦ (c ∷ [], OsalFileStatus.ok) ∷ gets_lines 254 cs
  | false ↦ continued c (gets_lines (room - 1) cs)
]

-- The reading of a configuration file of these bytes.
unfoldable pub try_read_bytes : (out_size : ℕ) (bytes : List ℕ) → M (Option (List ℕ))
try_read_bytes out_size bytes =
    lexleo_app_try_read_log_path_from_config out_size (gets_lines 254 bytes)

-- `home` is what `getenv("HOME")` answers.
unfoldable pub lexleo_app_platform_resolve_default_log_path :
    (home : Option (List ℕ)) (buf_size : ℕ) → Option (List ℕ)
lexleo_app_platform_resolve_default_log_path none buf_size = none
lexleo_app_platform_resolve_default_log_path (some []) buf_size = none
lexleo_app_platform_resolve_default_log_path (some (c ∷ cs)) buf_size =
    lexleo_app_copy_string buf_size ((c ∷ cs) ++ codes "/.local/state/lexleo/lexleo.log")

-- The separator of the directories in a path: `/` is 47, and `\` is 92.
module _ (sep : ℕ) where
  -- `osal_strrchr(dir, sep)`: what stands before the last separator.
  unfoldable pub before_last_slash : List ℕ → Option (List ℕ)
  before_last_slash [] = none
  before_last_slash (c ∷ cs) = elim (before_last_slash cs) as (λ _. Option (List ℕ)) [
    | none ↦ if c == sep then some [] else none
    | some front ↦ some (c ∷ front)
  ]

  -- The prefixes that the loop over `dir` cuts at a separator, behind `front`.
  unfoldable pub inner_dirs : (front rest : List ℕ) → List (List ℕ)
  inner_dirs front [] = []
  inner_dirs front (c ∷ cs) =
      let more = inner_dirs (front ++ c ∷ []) cs in if c == sep then front ∷ more else more

unfoldable pub dirs_of : Option (List ℕ) → Option (List (List ℕ))
unfolding inner_dirs
dirs_of none = none
dirs_of (some []) = none
dirs_of (some (c ∷ cs)) = some (inner_dirs 47 (c ∷ []) cs ++ (c ∷ cs) ∷ [])

-- The directories that are made for a path, in the order of the calls.
unfoldable pub parent_dirs : (log_path : List ℕ) → Option (List (List ℕ))
unfolding dirs_of
parent_dirs log_path =
    if leb 1024 (length log_path) then none else dirs_of (before_last_slash 47 log_path)

-- What follows a `mkdir`: the rest, if the directory is there.
when_made : OsalFileStatus → M Bool → M Bool
when_made OsalFileStatus.ok rest = rest
when_made OsalFileStatus.exists rest = rest
when_made _ rest = pure false

unfoldable pub make_dirs : List (List ℕ) → M Bool
unfolding when_made
make_dirs [] = pure true
make_dirs (d ∷ ds) = make_dir d >>= λ st. when_made st (make_dirs ds)

unfoldable pub make_all : Option (List (List ℕ)) → M Bool
make_all none = pure false
make_all (some ds) = make_dirs ds

unfoldable pub lexleo_app_platform_ensure_log_parent_dir_exists : (log_path : List ℕ) → M Bool
lexleo_app_platform_ensure_log_parent_dir_exists log_path = make_all (parent_dirs log_path)

ensured : Option (List ℕ) → M (Option (List ℕ))
ensured none = pure none
ensured (some path) = do
  ok ← lexleo_app_platform_ensure_log_parent_dir_exists path
  pure (if ok then some path else none)

or_default : ℕ → Option (List ℕ) → Option (List ℕ) → M (Option (List ℕ))
unfolding ensured
or_default out_size home (some path) = ensured (some path)
or_default out_size home none = ensured (lexleo_app_platform_resolve_default_log_path home out_size)

-- The path, or `none` where C returns false.
unfoldable pub lexleo_app_resolve_log_path :
    (lines : List (List ℕ × OsalFileStatus)) (home : Option (List ℕ)) (out_size : ℕ)
    → M (Option (List ℕ))
unfolding or_default
lexleo_app_resolve_log_path lines home out_size =
    if out_size == 0
    then pure none
    else lexleo_app_try_read_log_path_from_config out_size lines >>= or_default out_size home

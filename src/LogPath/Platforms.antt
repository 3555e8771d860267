-- ===== src/LogPath/Platforms.antt =====
-- The variants of the log path for other platforms (src/lexleo_app/src/cr/platform):
-- lexleo_app_log_path_macos.c, which differs from the Linux file in its default path, and
-- lexleo_app_log_path_win32.c.
use lex_leo.Prelude.{
  ℕ, ◌≡◌, ◌↔◌, inl, inr, ap, ◌∙◌, Bool, true, ◌&&◌, ◌||◌, Option, none, some, List, [], ◌∷◌, ◌++◌,
  append_assoc, if◌then◌else◌, leb, ◌==◌, length, Bool-cases, codes,
}
use lex_leo.Memory.{M}
use lex_leo.LogPath.{lexleo_app_copy_string, before_last_slash, inner_dirs, make_all}
use lex_leo.LogPath.Parents.{
  Among, Among-append, NoSlash, LastSlash, last_at, last_slash, inner_dirs_sound,
  inner_dirs_complete, split_slash,
}

-- `home` is what `getenv("HOME")` answers.
unfoldable pub macos_resolve_default_log_path :
    (home : Option (List ℕ)) (out_size : ℕ) → Option (List ℕ)
macos_resolve_default_log_path none out_size = none
macos_resolve_default_log_path (some []) out_size = none
macos_resolve_default_log_path (some (c ∷ cs)) out_size =
    lexleo_app_copy_string out_size ((c ∷ cs) ++ codes "/Library/Logs/LexLeo/lexleo.log")

-- `base` is what `getenv("LOCALAPPDATA")` answers; 92 is the backslash.
unfoldable pub win32_resolve_default_log_path :
    (base : Option (List ℕ)) (out_size : ℕ) → Option (List ℕ)
win32_resolve_default_log_path none out_size = none
win32_resolve_default_log_path (some []) out_size = none
win32_resolve_default_log_path (some (c ∷ cs)) out_size =
    lexleo_app_copy_string out_size
      ((c ∷ cs) ++ 92 ∷ codes "LexLeo" ++ 92 ∷ codes "logs" ++ 92 ∷ codes "lexleo.log")

-- A drive letter, a colon and a backslash.
unfoldable pub drive_root : (letter colon slash : ℕ) → Bool
drive_root letter colon slash =
    ((leb 65 letter && leb letter 90) || (leb 97 letter && leb letter 122))
    && ((colon == 58) && (slash == 92))

-- The directories for what stands before the last backslash: those that the loop behind the drive
-- cuts, and that one itself. Other forms are refused.
unfoldable pub win32_dirs_of : Option (List ℕ) → Option (List (List ℕ))
win32_dirs_of (some (l ∷ c ∷ s ∷ cs)) =
    if drive_root l c s
    then some (inner_dirs 92 (l ∷ c ∷ s ∷ []) cs ++ (l ∷ c ∷ s ∷ cs) ∷ [])
    else none
win32_dirs_of _ = none

unfoldable pub win32_parent_dirs : (log_path : List ℕ) → Option (List (List ℕ))
win32_parent_dirs log_path =
    if leb 1024 (length log_path) then none else win32_dirs_of (before_last_slash 92 log_path)

unfoldable pub win32_ensure_log_parent_dir_exists : (log_path : List ℕ) → M Bool
win32_ensure_log_parent_dir_exists log_path = make_all (win32_parent_dirs log_path)

-- `d` is the root of a drive or stands below it, and a backslash follows it in the path.
pub record IsOnDrive (d path : List ℕ) : Type 0 where
  pub letter : ℕ
  pub colon : ℕ
  pub slash : ℕ
  pub below : List ℕ
  pub rest : List ℕ
  pub root : drive_root letter colon slash ≡ true
  pub starts : d ≡ letter ∷ colon ∷ slash ∷ below
  pub splits : path ≡ d ++ 92 ∷ rest

module _ (l c s : ℕ) (cs last : List ℕ) (h : NoSlash 92 last) (root : drive_root l c s ≡ true) where
  dirs-IsOnDrive :
      (d : List ℕ)
      → Among d (inner_dirs 92 (l ∷ c ∷ s ∷ []) cs ++ (l ∷ c ∷ s ∷ cs) ∷ [])
      → IsOnDrive d ((l ∷ c ∷ s ∷ cs) ++ 92 ∷ last)
  dirs-IsOnDrive d k =
      elim ((Among-append d (l ∷ c ∷ s ∷ cs) (inner_dirs 92 (l ∷ c ∷ s ∷ []) cs)).0 k) [
        | inl m ↦
            let (mid, tail, split, same) = inner_dirs_sound 92 (l ∷ c ∷ s ∷ []) cs d m in
            record {
              letter = l;
              colon = c;
              slash = s;
              below = mid;
              rest = tail ++ 92 ∷ last;
              root = root;
              starts = same;
              splits =
                  rw split
                    (rw same (ap (λ t. l ∷ c ∷ s ∷ t) (append_assoc mid (92 ∷ tail) (92 ∷ last))));
            }
        | inr same ↦ record {
          letter = l;
          colon = c;
          slash = s;
          below = cs;
          rest = last;
          root = root;
          starts = same;
          splits = rw same;
        }
      ]

  IsOnDrive-dirs :
      (d : List ℕ)
      → IsOnDrive d ((l ∷ c ∷ s ∷ cs) ++ 92 ∷ last)
      → Among d (inner_dirs 92 (l ∷ c ∷ s ∷ []) cs ++ (l ∷ c ∷ s ∷ cs) ∷ [])
  IsOnDrive-dirs d v =
      let e = rw v.starts at v.splits in
      let f : d ≡ l ∷ c ∷ s ∷ v.below = cc in
      (Among-append d (l ∷ c ∷ s ∷ cs) (inner_dirs 92 (l ∷ c ∷ s ∷ []) cs)).1
        (elim (split_slash 92 cs v.below last v.rest (cc) h) [
          | inl same ↦ inr (f ∙ ap (λ t. l ∷ c ∷ s ∷ t) same)
          | inr (tail, inside) ↦
              inl (rw (f, inside) (inner_dirs_complete 92 (l ∷ c ∷ s ∷ []) v.below tail))
        ])

win32_dirs_of_iff :
    (path : List ℕ) (o : Option (List ℕ)) (dirs : List (List ℕ))
    → LastSlash 92 path o
    → win32_dirs_of o ≡ some dirs
    → (d : List ℕ) → Among d dirs ↔ IsOnDrive d path
unfolding win32_dirs_of
win32_dirs_of_iff path none dirs v e d = cc e
win32_dirs_of_iff path (some []) dirs v e d = cc e
win32_dirs_of_iff path (some (l ∷ [])) dirs v e d = cc e
win32_dirs_of_iff path (some (l ∷ c ∷ [])) dirs v e d = cc e
win32_dirs_of_iff path (some (l ∷ c ∷ s ∷ cs)) dirs (last_at last split h) e d =
    elim (Bool-cases (drive_root l c s)) [
      | inl r ↦
          let g = rw r at e in
          let same : inner_dirs 92 (l ∷ c ∷ s ∷ []) cs ++ (l ∷ c ∷ s ∷ cs) ∷ [] ≡ dirs = cc in
          rw (split, ← same)
            (dirs-IsOnDrive l c s cs last h r d, IsOnDrive-dirs l c s cs last h r d)
      | inr r ↦ cc (rw r at e)
    ]

-- The directories that the Windows variant makes for a path, where it does not refuse it, are exactly
-- the parents of the path from the root of its drive on: each of them, and no other.
pub win32_parent_dirs_iff :
    (path : List ℕ) (dirs : List (List ℕ))
    → win32_parent_dirs path ≡ some dirs
    → (d : List ℕ) → Among d dirs ↔ IsOnDrive d path
unfolding win32_parent_dirs
win32_parent_dirs_iff path dirs e d = elim (Bool-cases (leb 1024 (length path))) [
  | inl long ↦ cc (rw long at e)
  | inr short ↦
      win32_dirs_of_iff path (before_last_slash 92 path) dirs (last_slash 92 path) (rw short at e) d
]

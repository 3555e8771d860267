-- ===== src/LogPath/Config.antt =====
-- A configuration file that names a path, read back
-- (lexleo_app_try_read_log_path_from_config of lexleo_app_log_path.c).
use lex_leo.Prelude.{
  ℕ, Bool, ◌<◌, ◌-◌, ◌≡◌, refl, sym, ap, ◌∙◌, true, false, some, List, [], ◌∷◌, ◌++◌, append_assoc,
  arith, leb, ◌==◌, inl, inr, Bool-cases, length, codes,
}
use lex_leo.Status.{OsalFileStatus}
use lex_leo.Memory.{World, file, granted}
use lex_leo.Memory.Balance.{
  Returns, returns, bind, weaken, Balanced, Settles, Delta-Settles, close_file-Delta, unit_self,
  open_file-granted,
}
use lex_leo.LogPath.{
  c_string, osal_isspace, lexleo_app_trim_in_place, lexleo_app_copy_string, split_at_first, read_on,
  found, entry_verdict, key_verdict, line_verdict, scan_config, copied, read_config,
  lexleo_app_try_read_log_path_from_config, continued, gets_lines, try_read_bytes,
}
use lex_leo.LogPath.Trim.{
  Spaces, other_than, Without, Spaces-Without, All-append, c_string-Without, trim_lem,
  split_at_first-append, unquoted-quoted,
}

-- The spaces that the file may have round the section, the key and the value.
pub record Layout : Type 0 where
  pub section_indent : List ℕ
  pub section_tail : List ℕ
  pub key_indent : List ℕ
  pub before_equals : List ℕ
  pub after_equals : List ℕ
  pub value_tail : List ℕ

pub record IsLayout (lay : Layout) : Type 0 where
  pub section_indent : Spaces lay.section_indent
  pub section_tail : Spaces lay.section_tail
  pub key_indent : Spaces lay.key_indent
  pub before_equals : Spaces lay.before_equals
  pub after_equals : Spaces lay.after_equals
  pub value_tail : Spaces lay.value_tail

-- `[logger]`
abbrev pub section_line : Layout → List ℕ
section_line lay = lay.section_indent ++ (codes "[logger]" ++ lay.section_tail)

-- `log_path = "path"`
abbrev pub entry_line : Layout → List ℕ → List ℕ
entry_line lay path =
    lay.key_indent
    ++ (codes "log_path"
        ++ (lay.before_equals ++ (61 ∷ (lay.after_equals ++ (34 ∷ (path ++ 34 ∷ lay.value_tail))))))

-- A line that one call of `gets` stores whole.
pub record IsLine (line : List ℕ) : Type 0 where
  pub body : List ℕ
  pub ends : line ≡ body ++ 10 ∷ []
  pub single : Without 10 body
  pub short : length body < 254

gets_lines-body :
    (body rest : List ℕ) (room : ℕ)
    → Without 10 body
    → length body < room
    → gets_lines room (body ++ 10 ∷ rest)
      ≡ (body ++ 10 ∷ [], OsalFileStatus.ok) ∷ gets_lines 254 rest
unfolding gets_lines continued
gets_lines-body [] rest room h s = refl
gets_lines-body (c ∷ cs) rest room (n, h) s =
    let wide : leb room 1 ≡ false = ground arith in
    elim (Bool-cases (c == 10)) [
      | inl e ↦ absurd (cc (rw e at n))
      | inr e ↦ rw (gets_lines, e, wide, gets_lines-body cs rest (room - 1) h (omega arith))
    ]

gets_lines-line :
    (line rest : List ℕ)
    → IsLine line
    → gets_lines 254 (line ++ rest) ≡ (line, OsalFileStatus.ok) ∷ gets_lines 254 rest
gets_lines-line line rest v =
    rw (v.ends, append_assoc v.body (10 ∷ []) rest)
      (gets_lines-body v.body rest 254 v.single v.short)

module _ (inside : Bool) (line : List ℕ) (more : List (List ℕ × OsalFileStatus)) where
  scan_config-read_on :
      (k : Bool)
      → line_verdict inside (lexleo_app_trim_in_place (c_string line)) ≡ read_on k
      → scan_config inside ((line, OsalFileStatus.ok) ∷ more) ≡ scan_config k more
  unfolding scan_config
  scan_config-read_on k h = rw (h, scan_config)

  scan_config-found :
      (val : List ℕ)
      → line_verdict inside (lexleo_app_trim_in_place (c_string line)) ≡ found val
      → scan_config inside ((line, OsalFileStatus.ok) ∷ more) ≡ some val
  unfolding scan_config
  scan_config-found val h = rw (h, scan_config)

module _ (lay : Layout) (v : IsLayout lay) where
  section_line-trimmed : lexleo_app_trim_in_place (c_string (section_line lay)) ≡ codes "[logger]"
  unfolding osal_isspace
  section_line-trimmed =
      let strung : c_string (section_line lay) ≡ section_line lay =
        c_string-Without (section_line lay) (
          All-append (other_than 0) lay.section_indent _
            (Spaces-Without 0 lay.section_indent refl v.section_indent)
            (All-append (other_than 0) (codes "[logger]") _
              (refl, (refl, (refl, (refl, (refl, (refl, (refl, (refl, tt))))))))
              (Spaces-Without 0 lay.section_tail refl v.section_tail))) in
      rw strung (
        trim_lem lay.section_indent 91 (codes "logger") 93 lay.section_tail v.section_indent refl
          refl v.section_tail)

  section_verdict :
      line_verdict false (lexleo_app_trim_in_place (c_string (section_line lay))) ≡ read_on true
  unfolding line_verdict
  section_verdict = rw section_line-trimmed

  module _ (path : List ℕ) (plain : Without 0 path) where
    -- What the trimming leaves of the entry.
    abbrev core : List ℕ
    core =
        codes "log_path"
        ++ (lay.before_equals ++ (61 ∷ (lay.after_equals ++ (34 ∷ (path ++ 34 ∷ [])))))

    entry_line-strung : c_string (entry_line lay path) ≡ entry_line lay path
    unfolding osal_isspace
    entry_line-strung = c_string-Without (entry_line lay path) (
        All-append (other_than 0) lay.key_indent _
          (Spaces-Without 0 lay.key_indent refl v.key_indent)
          (All-append (other_than 0) (codes "log_path") _
            (refl, (refl, (refl, (refl, (refl, (refl, (refl, (refl, tt))))))))
            (All-append (other_than 0) lay.before_equals _
              (Spaces-Without 0 lay.before_equals refl v.before_equals)
              (
                refl,
                All-append (other_than 0) lay.after_equals _
                    (Spaces-Without 0 lay.after_equals refl v.after_equals)
                    (
                      refl,
                      All-append (other_than 0) path _ plain
                          (refl, Spaces-Without 0 lay.value_tail refl v.value_tail),
                    ),
              ))))

    -- The bytes between the first and the last of the core.
    abbrev inner : List ℕ
    inner = codes "og_path" ++ (lay.before_equals ++ (61 ∷ (lay.after_equals ++ (34 ∷ path))))

    inner-append :
        (b : List ℕ)
        → inner ++ 34 ∷ b
          ≡ codes "og_path"
            ++ (lay.before_equals ++ (61 ∷ (lay.after_equals ++ (34 ∷ (path ++ 34 ∷ b)))))
    inner-append b = rw (
      append_assoc lay.before_equals (61 ∷ (lay.after_equals ++ (34 ∷ path))) (34 ∷ b),
      append_assoc lay.after_equals (34 ∷ path) (34 ∷ b),
    )

    entry_line-trimmed : lexleo_app_trim_in_place (c_string (entry_line lay path)) ≡ core
    unfolding osal_isspace
    entry_line-trimmed =
        let whole : entry_line lay path ≡ lay.key_indent ++ 108 ∷ (inner ++ 34 ∷ lay.value_tail) =
          ap (λ l. lay.key_indent ++ 108 ∷ l) (sym (inner-append lay.value_tail)) in
        let trimmed =
          trim_lem lay.key_indent 108 inner 34 lay.value_tail v.key_indent refl refl v.value_tail in
        ap lexleo_app_trim_in_place (entry_line-strung ∙ whole)
        ∙ trimmed
        ∙ ap (λ l. 108 ∷ l) (inner-append [])

    key_part :
        split_at_first 61 core
        ≡ some (codes "log_path" ++ lay.before_equals, lay.after_equals ++ (34 ∷ (path ++ 34 ∷ [])))
    unfolding osal_isspace
    key_part = split_at_first-append 61 (codes "log_path" ++ lay.before_equals) _ (
        All-append (other_than 61) (codes "log_path") _
          (refl, (refl, (refl, (refl, (refl, (refl, (refl, (refl, tt))))))))
          (Spaces-Without 61 lay.before_equals refl v.before_equals))

    key-trimmed :
        lexleo_app_trim_in_place (codes "log_path" ++ lay.before_equals) ≡ codes "log_path"
    unfolding osal_isspace
    key-trimmed =
        trim_lem [] 108 (codes "og_pat") 104 lay.before_equals tt refl refl v.before_equals

    value-trimmed :
        lexleo_app_trim_in_place (lay.after_equals ++ (34 ∷ (path ++ 34 ∷ [])))
        ≡ 34 ∷ (path ++ 34 ∷ [])
    unfolding osal_isspace
    value-trimmed = trim_lem lay.after_equals 34 path 34 [] v.after_equals refl refl tt

    core_verdict : line_verdict true core ≡ found path
    unfolding line_verdict key_verdict entry_verdict
    core_verdict = rw (key_part, key-trimmed, value-trimmed, unquoted-quoted path)

    scan_config-entry :
        (more : List (List ℕ × OsalFileStatus))
        → scan_config false (
            (section_line lay, OsalFileStatus.ok) ∷ (entry_line lay path, OsalFileStatus.ok) ∷ more)
          ≡ some path
    scan_config-entry more =
        scan_config-read_on false (section_line lay) _ true section_verdict
        ∙ scan_config-found true (entry_line lay path) more path
            (ap (line_verdict true) entry_line-trimmed ∙ core_verdict)

    copied-entry : (out_size : ℕ) → length path < out_size → copied out_size (some path) ≡ some path
    unfolding copied lexleo_app_copy_string
    copied-entry out_size h = rw (leb_of_lt out_size h)
      where
        leb_of_lt : (n : ℕ) → length path < n → leb n (length path) ≡ false
        leb_of_lt n h = ground arith

    scanned-entry :
        (more : List (List ℕ × OsalFileStatus)) (out_size : ℕ) (w : World)
        → length path < out_size
        → w.answers w.next ≡ OsalFileStatus.ok
        → Returns
            (λ o w'. (o ≡ some path) × Balanced w w')
            (lexleo_app_try_read_log_path_from_config out_size
              ((section_line lay, OsalFileStatus.ok)
                ∷ (entry_line lay path, OsalFileStatus.ok)
                ∷ more)
              w)
    unfolding lexleo_app_try_read_log_path_from_config read_config
    scanned-entry more out_size w short opens = rw (open_file-granted w opens) (
        bind
          (close_file-Delta w.next (granted (file w.next) w)
            (omega (arith, unit_self (file w.next))))
          λ _ w' d. returns (
            ap (copied out_size) (scan_config-entry more) ∙ copied-entry out_size short,
            λ r. omega (arith, d r),
          ))

    -- A path without a zero byte, written between double quotes as the `log_path` of the `[logger]`
    -- section, with any spaces round the section, the key and the value, is read back from the bytes of
    -- a configuration file that can be opened, into a buffer that it fits with its terminating zero.
    -- The two lines are the first of the file, each ends with its only newline and fits the buffer of
    -- `gets`. What follows in the file does not matter. The file is closed; only where
    -- that close fails does its OSAL_FILE block stay allocated.
    pub lexleo_app_try_read_log_path_from_config-entry :
        (more : List ℕ) (out_size : ℕ) (w : World)
        → IsLine (section_line lay)
        → IsLine (entry_line lay path)
        → length path < out_size
        → w.answers w.next ≡ OsalFileStatus.ok
        → Returns
            (λ o w'. (o ≡ some path) × Settles [] [] w w')
            (try_read_bytes out_size (section_line lay ++ (entry_line lay path ++ more)) w)
    unfolding try_read_bytes
    lexleo_app_try_read_log_path_from_config-entry more out_size w first second short opens =
        rw
          (
            gets_lines-line (section_line lay) (entry_line lay path ++ more) first,
            gets_lines-line (entry_line lay path) more second,
          )
          (weaken (scanned-entry (gets_lines 254 more) out_size w short opens)
            λ o w' (e, b). (e, Delta-Settles [] [] w w' b))

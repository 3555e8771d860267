-- ===== src/LogPath/Trim.antt =====
-- Trimming, splitting and unquoting of texts whose shape is known (lexleo_app_trim_in_place and the
-- calls of osal_strchr in lexleo_app_log_path.c).
use lex_leo.Prelude.{
  ℕ, ◌≡◌, refl, ap, inl, inr, true, false, Bool, Bool-cases, some, List, [], ◌∷◌, ◌++◌, arith, ◌==◌,
  if◌then◌else◌,
}
use lex_leo.LogPath.{
  c_string, osal_isspace, skip_spaces, cut_spaces, lexleo_app_trim_in_place, split_at_first,
  split_last, unquoted,
}

-- Every byte of the text passes the test.
abbrev pub All : (ℕ → Bool) → List ℕ → Type 0
All p [] = Unit
All p (c ∷ cs) = (p c ≡ true) × All p cs

abbrev pub Spaces : List ℕ → Type 0
Spaces = All osal_isspace

abbrev pub other_than : ℕ → ℕ → Bool
other_than x c = if c == x then false else true

abbrev pub Without : ℕ → List ℕ → Type 0
Without x = All (other_than x)

pub Spaces-Without : (x : ℕ) (s : List ℕ) → osal_isspace x ≡ false → Spaces s → Without x s
Spaces-Without x [] h k = tt
Spaces-Without x (c ∷ cs) h k = elim (Bool-cases (c == x)) [
  | inl e ↦ let same : c ≡ x = ground arith in absurd (cc (rw same at k.0))
  | inr e ↦ (rw e, Spaces-Without x cs h k.1)
]

pub All-append : (p : ℕ → Bool) (s t : List ℕ) → All p s → All p t → All p (s ++ t)
All-append p [] t h k = k
All-append p (c ∷ cs) t h k = (h.0, All-append p cs t h.1 k)

-- A text without a zero byte is a string.
pub c_string-Without : (s : List ℕ) → Without 0 s → c_string s ≡ s
unfolding c_string
c_string-Without [] h = refl
c_string-Without (c ∷ cs) h = elim (Bool-cases (c == 0)) [
  | inl e ↦ absurd (cc (rw e at h.0))
  | inr e ↦ rw e (ap (λ l. c ∷ l) (c_string-Without cs h.1))
]

skip_spaces-append :
    (a : List ℕ) (c : ℕ) (s : List ℕ)
    → Spaces a
    → osal_isspace c ≡ false
    → skip_spaces (a ++ c ∷ s) ≡ c ∷ s
unfolding skip_spaces
skip_spaces-append [] c s h k = rw k
skip_spaces-append (x ∷ a) c s h k = rw h.0 (skip_spaces-append a c s h.1 k)

cut_spaces-Spaces : (b : List ℕ) → Spaces b → cut_spaces b ≡ []
unfolding cut_spaces
cut_spaces-Spaces [] h = refl
cut_spaces-Spaces (x ∷ b) h = rw (cut_spaces-Spaces b h.1, h.0)

cut_spaces-append :
    (s : List ℕ) (d : ℕ) (b : List ℕ)
    → osal_isspace d ≡ false
    → Spaces b
    → cut_spaces (s ++ d ∷ b) ≡ s ++ d ∷ []
unfolding cut_spaces
cut_spaces-append [] d b k h = rw (cut_spaces-Spaces b h, k)
cut_spaces-append (x ∷ []) d b k h = rw (cut_spaces-append [] d b k h)
cut_spaces-append (x ∷ (y ∷ s)) d b k h = rw (cut_spaces-append (y ∷ s) d b k h)

-- A text between two bytes that are not spaces, with spaces round it.
pub trim_lem :
    (a : List ℕ) (c : ℕ) (s : List ℕ) (d : ℕ) (b : List ℕ)
    → Spaces a
    → osal_isspace c ≡ false
    → osal_isspace d ≡ false
    → Spaces b
    → lexleo_app_trim_in_place (a ++ c ∷ (s ++ d ∷ b)) ≡ c ∷ (s ++ d ∷ [])
unfolding lexleo_app_trim_in_place
trim_lem a c s d b ha hc hd hb =
    rw (skip_spaces-append a c (s ++ d ∷ b) ha hc) (cut_spaces-append (c ∷ s) d b hd hb)

pub split_at_first-append :
    (x : ℕ) (s t : List ℕ) → Without x s → split_at_first x (s ++ x ∷ t) ≡ some (s, t)
unfolding split_at_first
split_at_first-append x [] t h = ground arith
split_at_first-append x (c ∷ cs) t h = elim (Bool-cases (c == x)) [
  | inl e ↦ absurd (cc (rw e at h.0))
  | inr e ↦ rw (e, split_at_first-append x cs t h.1)
]

split_last-append : (c : ℕ) (s : List ℕ) (d : ℕ) → split_last c (s ++ d ∷ []) ≡ (c ∷ s, d)
unfolding split_last
split_last-append c [] d = refl
split_last-append c (x ∷ s) d = rw (split_last-append x s d)

pub unquoted-quoted : (s : List ℕ) → unquoted (34 ∷ (s ++ 34 ∷ [])) ≡ s
unfolding unquoted split_last
unquoted-quoted [] = refl
unquoted-quoted (c ∷ s) = rw (split_last-append c s 34)

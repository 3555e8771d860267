-- ===== src/LogPath/Parents.antt =====
-- The directories that are made for a log path (lexleo_app_log_path_linux.c).
use lex_leo.Prelude.{
  ℕ, ◌≡◌, ◌≢◌, ◌↔◌, ◌⊎◌, inl, inr, refl, sym, ap, ◌∙◌, true, Option, none, some, List, [], ◌∷◌,
  ◌++◌, append_assoc, append-nil, if◌then◌else◌, arith, leb, ◌==◌, ==_refl, length, Bool-cases,
}
use mathlib.Core.Path.{subst}
use lex_leo.LogPath.{before_last_slash, inner_dirs, dirs_of, parent_dirs}

abbrev pub Among : List ℕ → List (List ℕ) → Type 0
Among d [] = ⊥
Among d (x ∷ xs) = (d ≡ x) ⊎ Among d xs

pub Among-append :
    (d x : List ℕ) (xs : List (List ℕ)) → Among d (xs ++ x ∷ []) ↔ (Among d xs ⊎ (d ≡ x))
Among-append d x [] = (
  λ h. elim h [ inl e ↦ inr e | inr k ↦ absurd k ],
  λ h. elim h [ inl k ↦ absurd k | inr e ↦ inl e ],
)
Among-append d x (y ∷ ys) =
    let (there, back) = Among-append d x ys in
    (
      λ h. elim h [
        | inl e ↦ inl (inl e)
        | inr k ↦ elim (there k) [ inl m ↦ inl (inr m) | inr e ↦ inr e ]
      ],
      λ h. elim h [
        | inl m ↦ elim m [ inl e ↦ inl e | inr k ↦ inr (back (inl k)) ]
        | inr e ↦ inr (back (inr e))
      ],
    )

module _ (sep : ℕ) where
  -- `d` is not empty, and a slash follows it in the path.
  abbrev pub IsParent : (d path : List ℕ) → Type 0
  IsParent d path = (d ≢ []) × ((rest : List ℕ) × (path ≡ d ++ sep ∷ rest))

  abbrev pub NoSlash : List ℕ → Type 0
  NoSlash [] = Unit
  NoSlash (c ∷ cs) = (c ≢ sep) × NoSlash cs

  no_slash : (s d rest : List ℕ) → NoSlash s → s ≡ d ++ sep ∷ rest → ⊥
  no_slash [] [] rest h e = cc e
  no_slash [] (x ∷ xs) rest h e = cc e
  no_slash (c ∷ cs) [] rest h e = h.0 (cc)
  no_slash (c ∷ cs) (x ∷ xs) rest h e = no_slash cs xs rest h.1 (cc)

  pub data LastSlash (s : List ℕ) : Option (List ℕ) → Type 0 where
    absent : NoSlash s → LastSlash s none
    last_at :
        {front : List ℕ} (last : List ℕ)
        → s ≡ front ++ sep ∷ last
        → NoSlash last
        → LastSlash s (some front)

  pub last_slash : (s : List ℕ) → LastSlash s (before_last_slash sep s)
  unfolding before_last_slash
  last_slash [] = absent tt
  last_slash (c ∷ cs) = step (before_last_slash sep cs) (last_slash cs)
    where
      step :
          (o : Option (List ℕ))
          → LastSlash cs o
          → LastSlash (c ∷ cs) (elim o as (λ _. Option (List ℕ)) [
            | none ↦ if c == sep then some [] else none
            | some front ↦ some (c ∷ front)
          ])
      step none (absent h) = elim (Bool-cases (c == sep)) [
        | inl e ↦ rw e (last_at cs (ground arith) h)
        | inr e ↦ rw e (absent (ground arith, h))
      ]
      step (some front) (last_at last e h) = last_at last (cc) h

  -- What the loop over `rest` cuts: a front, and what stands before a slash.
  pub inner_dirs_sound :
      (front rest d : List ℕ)
      → Among d (inner_dirs sep front rest)
      → (mid tail : List ℕ) × (rest ≡ mid ++ sep ∷ tail) × (d ≡ front ++ mid)
  unfolding inner_dirs
  inner_dirs_sound front [] d h = absurd h
  inner_dirs_sound front (c ∷ cs) d h = elim (Bool-cases (c == sep)) [
    | inl e ↦ cut e (rw e at h) (inner_dirs_sound (front ++ c ∷ []) cs d)
    | inr e ↦ later (inner_dirs_sound (front ++ c ∷ []) cs d (rw e at h))
  ]
    where
      later :
          (mid tail : List ℕ) × (cs ≡ mid ++ sep ∷ tail) × (d ≡ (front ++ c ∷ []) ++ mid)
          → (mid tail : List ℕ) × (c ∷ cs ≡ mid ++ sep ∷ tail) × (d ≡ front ++ mid)
      later (mid, tail, split, same) =
          (c ∷ mid, tail, ap (λ l. c ∷ l) split, same ∙ append_assoc front (c ∷ []) mid)

      cut :
          (c == sep) ≡ true
          → Among d (front ∷ inner_dirs sep (front ++ c ∷ []) cs)
          → (Among d (inner_dirs sep (front ++ c ∷ []) cs)
              → (mid tail : List ℕ) × (cs ≡ mid ++ sep ∷ tail) × (d ≡ (front ++ c ∷ []) ++ mid))
          → (mid tail : List ℕ) × (c ∷ cs ≡ mid ++ sep ∷ tail) × (d ≡ front ++ mid)
      cut e (inl same) rest = ([], cs, ground arith, same ∙ sym (append-nil front))
      cut e (inr k) rest = later (rest k)

  pub inner_dirs_complete :
      (front mid tail : List ℕ) → Among (front ++ mid) (inner_dirs sep front (mid ++ sep ∷ tail))
  unfolding inner_dirs
  inner_dirs_complete front [] tail = rw (==_refl sep) (inl (append-nil front))
  inner_dirs_complete front (c ∷ mid) tail =
      let more = inner_dirs sep (front ++ c ∷ []) (mid ++ sep ∷ tail) in
      let found : Among (front ++ c ∷ mid) more =
        subst (λ d. Among d more) (append_assoc front (c ∷ []) mid)
          (inner_dirs_complete (front ++ c ∷ []) mid tail) in
      elim (Bool-cases (c == sep)) [ inl e ↦ rw e (inr found) | inr e ↦ rw e found ]

  pub split_slash :
      (cs d last rest : List ℕ)
      → cs ++ sep ∷ last ≡ d ++ sep ∷ rest
      → NoSlash last
      → (d ≡ cs) ⊎ ((tail : List ℕ) × (cs ≡ d ++ sep ∷ tail))
  split_slash [] [] last rest e h = inl refl
  split_slash [] (x ∷ d) last rest e h = absurd (no_slash last d rest h (cc))
  split_slash (x ∷ cs) [] last rest e h = inr (cs, cc)
  split_slash (x ∷ cs) (y ∷ d) last rest e h = elim (split_slash cs d last rest (cc) h) [
    | inl same ↦ inl (cc)
    | inr (tail, inside) ↦ inr (tail, cc)
  ]

  module _ (c : ℕ) (cs last : List ℕ) (h : NoSlash last) where
    all_dirs : List (List ℕ)
    all_dirs = inner_dirs sep (c ∷ []) cs ++ (c ∷ cs) ∷ []

    all_dirs-IsParent : (d : List ℕ) → Among d all_dirs → IsParent d ((c ∷ cs) ++ sep ∷ last)
    unfolding all_dirs
    all_dirs-IsParent d k = elim ((Among-append d (c ∷ cs) (inner_dirs sep (c ∷ []) cs)).0 k) [
      | inl m ↦
          let (mid, tail, split, same) = inner_dirs_sound (c ∷ []) cs d m in
          (
            λ e. absurd (cc),
            (
              tail ++ sep ∷ last,
              rw split (rw same (ap (λ l. c ∷ l) (append_assoc mid (sep ∷ tail) (sep ∷ last)))),
            ),
          )
      | inr same ↦ (λ e. absurd (cc), (last, rw same))
    ]

    IsParent-all_dirs : (d : List ℕ) → IsParent d ((c ∷ cs) ++ sep ∷ last) → Among d all_dirs
    unfolding all_dirs
    IsParent-all_dirs [] (ne, (rest, e)) = absurd (ne refl)
    IsParent-all_dirs (x ∷ d) (ne, (rest, e)) =
        let here : x ≡ c = cc in
        (Among-append (x ∷ d) (c ∷ cs) (inner_dirs sep (c ∷ []) cs)).1
          (elim (split_slash cs d last rest (cc) h) [
            | inl same ↦ inr (cc)
            | inr (tail, inside) ↦ inl (rw (inside, here) (inner_dirs_complete (c ∷ []) d tail))
          ])

dirs_of_iff :
    (path : List ℕ) (o : Option (List ℕ)) (dirs : List (List ℕ))
    → LastSlash 47 path o
    → dirs_of o ≡ some dirs
    → (d : List ℕ) → Among d dirs ↔ IsParent 47 d path
unfolding dirs_of all_dirs
dirs_of_iff path none dirs v e d = cc e
dirs_of_iff path (some []) dirs v e d = cc e
dirs_of_iff path (some (c ∷ cs)) dirs (last_at last split h) e d =
    let same : all_dirs 47 c cs last h ≡ dirs = cc in
    rw (split, ← same) (all_dirs-IsParent 47 c cs last h d, IsParent-all_dirs 47 c cs last h d)

-- The directories made for a path, where the code does not refuse it, are exactly its parents: the
-- nonempty texts that a slash follows in the path, each one, and no other.
pub parent_dirs_iff :
    (path : List ℕ) (dirs : List (List ℕ))
    → parent_dirs path ≡ some dirs
    → (d : List ℕ) → Among d dirs ↔ IsParent 47 d path
unfolding parent_dirs
parent_dirs_iff path dirs e d = elim (Bool-cases (leb 1024 (length path))) [
  | inl long ↦ cc (rw long at e)
  | inr short ↦
      dirs_of_iff path (before_last_slash 47 path) dirs (last_slash 47 path) (rw short at e) d
]

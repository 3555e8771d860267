-- ===== src/Ast/Errors.antt =====
-- The creation of error nodes (ast.c).
use lex_leo.Prelude.{
  ℕ, suc, ◌≤◌, ◌≡◌, ◌∙◌, refl, sym, inl, inr, Option, none, some, ltb→ge, ge→ltb, List, [], ◌∷◌,
  arith, ltb, Bool-cases, length,
}
use lex_leo.Memory.{World, block, done, granted, calloc}
use lex_leo.HashtableKey.{Key}
use lex_leo.Memory.Balance.{
  Returns, returns, bind, Delta, Balanced, Returns-also, AllGranted, done_result, Allocated, fresh,
  exhausted, calloc-Allocated,
}
use lex_leo.Memory.Release.{Owning, free-Frees}
use lex_leo.Ast.{
  ErrorInfo, Ast, error_sentinel, error_node, maximum_error_message_length, info_made, message_made,
  error_made, ast_create_error_node, or_sentinel, ast_create_error_node_or_sentinel,
}
use lex_leo.Ast.Destruction.{ast_amount}
use lex_leo.Ast.Leaves.{Made, made, unmade}

-- What an error node says.
pub record IsError (code : ℕ) (message : List ℕ) (a : Ast) : Type 0 where
  pub addr : ℕ
  pub info : ErrorInfo
  pub node : a ≡ error_node addr info
  pub code_of : info.code ≡ code
  pub message_of : info.message.text ≡ message

-- The outcome of a report: a node for a message of at most 255 bytes, or the sentinel.
pub data Reported (code : ℕ) (w : World) : Option (List ℕ) → Ast → World → Type 0 where
  told :
      {message : List ℕ} {a : Ast} {w' : World}
      → length message ≤ maximum_error_message_length
      → IsError code message a
      → Owning w (ast_amount a) w'
      → Reported code w (some message) a w'
  untold :
      {message : Option (List ℕ)} {w' : World}
      → Balanced w w'
      → Reported code w message error_sentinel w'

module _ (code : ℕ) (message : List ℕ) (w : World) where
  abbrev ErrorMade : Option Ast → World → Type 0
  ErrorMade = Made ast_amount (IsError code message) w

  info_made-ErrorMade :
      (p q : ℕ) (o : Option ℕ) (w₂ w₃ : World)
      → Delta (block p ∷ block q ∷ []) [] w w₂
      → Allocated w₂ o w₃
      → Returns ErrorMade (info_made code p (record { addr = q; text = message }) o w₃)
  unfolding info_made ast_amount
  info_made-ErrorMade p q _ w₂ w₃ d (exhausted b) =
      bind (free-Frees q w₃ (λ r. omega (arith, d r, b r))) λ _ w₄ e.
        bind (free-Frees p w₄ (λ r. omega (arith, d r, b r, e r)))
          λ _ w₅ f. returns (unmade (λ r. omega (arith, d r, b r, e r, f r)))
  info_made-ErrorMade p q _ w₂ w₃ d (fresh i b) = returns (
      made
        (record {
          addr = p;
          info = record { addr = i; code = code; message = record { addr = q; text = message } };
          node = refl;
          code_of = refl;
          message_of = refl;
        })
        (λ r. omega (arith, d r, b r)))

  message_made-ErrorMade :
      (p : ℕ) (o : Option ℕ) (w₁ w₂ : World)
      → Delta (block p ∷ []) [] w w₁
      → Allocated w₁ o w₂
      → Returns ErrorMade (message_made code message p o w₂)
  unfolding message_made
  message_made-ErrorMade p _ w₁ w₂ d (exhausted b) =
      bind (free-Frees p w₂ (λ r. omega (arith, d r, b r)))
        λ _ w₃ f. returns (unmade (λ r. omega (arith, d r, b r, f r)))
  message_made-ErrorMade p _ w₁ w₂ d (fresh q b) =
      bind (calloc-Allocated w₂)
        λ o w₃ a. info_made-ErrorMade p q o w₂ w₃ (λ r. omega (arith, d r, b r)) a

  error_made-ErrorMade :
      (o : Option ℕ) (w₁ : World)
      → Allocated w o w₁
      → Returns ErrorMade (error_made code message o w₁)
  unfolding error_made
  error_made-ErrorMade _ w₁ (exhausted b) = returns (unmade b)
  error_made-ErrorMade _ w₁ (fresh p d) =
      bind (calloc-Allocated w₁) λ o w₂ a. message_made-ErrorMade p o w₁ w₂ d a

  create-ErrorMade : Returns ErrorMade (ast_create_error_node code (some message) w)
  unfolding ast_create_error_node
  create-ErrorMade = elim (Bool-cases (ltb maximum_error_message_length (length message))) [
    | inl e ↦ rw e (returns (unmade (λ r. refl)))
    | inr e ↦ rw e (bind (calloc-Allocated w) λ o w₁ a. error_made-ErrorMade o w₁ a)
  ]

  or_sentinel-Reported :
      (o : Option Ast) (w₁ : World)
      → length message ≤ maximum_error_message_length
      → ErrorMade o w₁
      → Returns (Reported code w (some message)) (or_sentinel o w₁)
  unfolding or_sentinel
  or_sentinel-Reported _ w₁ short (unmade b) = returns (untold b)
  or_sentinel-Reported _ w₁ short (made e o) = returns (told short e o)

  some-Reported :
      Returns
        (Reported code w (some message))
        (ast_create_error_node_or_sentinel code (some message) w)
  unfolding ast_create_error_node_or_sentinel ast_create_error_node or_sentinel
  some-Reported = elim (Bool-cases (ltb maximum_error_message_length (length message))) [
    | inl e ↦ rw e (returns (untold (λ r. refl)))
    | inr e ↦ bind create-ErrorMade λ o w₁ m. or_sentinel-Reported o w₁ (ltb→ge _ _ e) m
  ]

  report-succeeds :
      AllGranted w
      → length message ≤ maximum_error_message_length
      → (a : Ast) × (w' : World) × (ast_create_error_node_or_sentinel code (some message) w
          ≡ done a w')
        × IsError code message a
  unfolding ast_create_error_node_or_sentinel ast_create_error_node error_made message_made
      info_made or_sentinel calloc
  report-succeeds g short =
      let p = w.next in
      let copy : Key = record { addr = suc p; text = message } in
      let info : ErrorInfo = record { addr = suc (suc p); code = code; message = copy } in
      (
        error_node p info,
        granted (block (suc (suc p))) (granted (block (suc p)) (granted (block p) w)),
        rw (
          ge→ltb maximum_error_message_length (length message) short,
          g p,
          g (suc p),
          g (suc (suc p)),
        ),
        record { addr = p; info = info; node = refl; code_of = refl; message_of = refl },
      )

any-Reported :
    (code : ℕ) (message : Option (List ℕ)) (w : World)
    → Returns (Reported code w message) (ast_create_error_node_or_sentinel code message w)
unfolding ast_create_error_node_or_sentinel ast_create_error_node or_sentinel
any-Reported code none w = returns (untold (λ r. refl))
any-Reported code (some m) w = some-Reported code m w

-- The report of an error never aborts and always has a node: one with the code and a copy of a message
-- of at most 255 bytes, which owns exactly the blocks taken for it, or the static sentinel, with
-- nothing leaked, as for a message that is NULL or longer. For a message of at most 255 bytes it is
-- not the sentinel if every request for memory is granted.
pub ast_create_error_node_or_sentinel-Error :
    (code : ℕ) (message : Option (List ℕ)) (w : World)
    → Returns
        (λ a w'.
          Reported code w message a w'
          × (AllGranted w
              → (m : List ℕ) → message ≡ some m
              → length m ≤ maximum_error_message_length
              → IsError code m a))
        (ast_create_error_node_or_sentinel code message w)
ast_create_error_node_or_sentinel-Error code message w =
    Returns-also (any-Reported code message w) λ a w' e g m is_m short.
      let (b, w₁, f, said) = report-succeeds code m w g short in
      rw (done_result (sym (rw is_m at e) ∙ f)) said

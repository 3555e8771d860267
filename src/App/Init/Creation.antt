-- ===== src/App/Init/Creation.antt =====
-- The construction of the application (lexleo_app_create and lexleo_app_create_init).
use lex_leo.Prelude.{ℕ, ◌≡◌, ◌≢◌, refl, true, Option, none, some, List, [], ◌∷◌, arith}
use lex_leo.Status.{OsalFileStatus}
use lex_leo.Memory.{World, block}
use lex_leo.Memory.Balance.{
  Returns, returns, bind, Balanced, Delta, Allocated, fresh, exhausted, calloc-Allocated, free-held,
  Settles, Delta-Settles,
}
use lex_leo.Memory.Release.{Owning}
use lex_leo.App.{
  LexleoAppCfg, LexleoApp, LexleoAppCrStatus, new_app, allocated_owner, allocated_app,
  lexleo_app_create, lexleo_app_supported_cfg,
}
use lex_leo.App.Release.{owned, lexleo_app_destroy-Frees}
use lex_leo.App.Init.{initialised, created, lexleo_app_create_init}
use lex_leo.App.Init.Outcome.{Complete, Initialised, complete, in_part}
use lex_leo.App.Init.Ownership.{lexleo_app_complete_default_init-Initialised}

-- A new handle with exactly its two blocks, or OOM and nothing held.
data NewApp (w : World) : LexleoAppCrStatus → Option LexleoApp → World → Type 0 where
  new :
      (a b : ℕ) {w' : World}
      → Owning w (owned (new_app a b)) w'
      → NewApp w LexleoAppCrStatus.ok (some (new_app a b)) w'
  no_memory : {w' : World} → Balanced w w' → NewApp w LexleoAppCrStatus.oom none w'

-- A complete application with exactly what was taken for it, or none and nothing allocated or open but
-- orphans.
pub data AppCreated (cfg : LexleoAppCfg) (w : World) : Option LexleoApp → World → Type 0 where
  app_created :
      {app : LexleoApp} {w' : World}
      → Complete cfg app
      → Owning w (owned app) w'
      → AppCreated cfg w (some app) w'
  no_app : {w' : World} → Settles [] [] w w' → AppCreated cfg w none w'

module _ (w : World) where
  allocated_owner-NewApp :
      (tmp : ℕ) (w₁ : World)
      → Delta (block tmp ∷ []) [] w w₁
      → {o : Option ℕ} {w₂ : World} → Allocated w₁ o w₂
      → Returns (λ (st, app) w'. NewApp w st app w') (allocated_owner tmp o w₂)
  unfolding allocated_owner
  allocated_owner-NewApp tmp w₁ d (fresh p e) = returns (new tmp p (λ r. omega (arith, d r, e r)))
  allocated_owner-NewApp tmp w₁ d (exhausted {w' = w₂} bal) =
      bind (free-held tmp [] w₂ (λ r. omega (arith, d r, bal r)))
        λ _ w₃ (d₃, _). returns (no_memory (λ r. omega (arith, d r, bal r, d₃ r)))

  allocated_app-NewApp :
      {o : Option ℕ} {w₁ : World}
      → Allocated w o w₁
      → Returns (λ (st, app) w'. NewApp w st app w') (allocated_app o w₁)
  unfolding allocated_app
  allocated_app-NewApp (fresh p {w' = w₁} d) =
      bind (calloc-Allocated w₁) λ o w₂ a. allocated_owner-NewApp p w₁ d a
  allocated_app-NewApp (exhausted bal) = returns (no_memory bal)

  lexleo_app_create-NewApp : Returns (λ (st, app) w'. NewApp w st app w') (lexleo_app_create w)
  unfolding lexleo_app_create
  lexleo_app_create-NewApp = bind (calloc-Allocated w) λ o w₁ a. allocated_app-NewApp a

module _ (cfg : LexleoAppCfg) (lines : List (List ℕ × OsalFileStatus)) (home : Option (List ℕ))
    (w : World) where
  initialised-AppCreated :
      {st : LexleoAppCrStatus} {app : LexleoApp} {w₁ : World}
      → Initialised cfg w st app w₁
      → Returns (AppCreated cfg w) (initialised cfg lines home (st, app) w₁)
  unfolding initialised
  initialised-AppCreated (complete good d) = returns (app_created good d)
  initialised-AppCreated (in_part {st} {app} {w' = w₁} ne d) = other st ne
    where
      other :
          (st : LexleoAppCrStatus)
          → st ≢ LexleoAppCrStatus.ok
          → Returns (AppCreated cfg w) (initialised cfg lines home (st, app) w₁)
      other LexleoAppCrStatus.ok ne = absurd (ne refl)
      other _ ne =
          bind (lexleo_app_destroy-Frees app w₁ (λ r. omega (arith, d r)))
            λ _ w₂ e. returns (no_app (Delta-Settles [] [] w w₂ (λ r. omega (arith, d r, e r))))

  created-AppCreated :
      {st : LexleoAppCrStatus} {app : Option LexleoApp} {w₁ : World}
      → lexleo_app_supported_cfg cfg ≡ true
      → NewApp w st app w₁
      → Returns (AppCreated cfg w) (created cfg lines home (st, app) w₁)
  unfolding created
  created-AppCreated ok (new a b {w' = w₁} d) =
      bind (lexleo_app_complete_default_init-Initialised cfg w lines home a b w₁ ok d)
        λ (st, app) w₂ i. initialised-AppCreated i
  created-AppCreated ok (no_memory {w'} bal) = returns (no_app (Delta-Settles [] [] w w' bal))

  -- For a supported configuration, the construction of the application never aborts, whatever the
  -- allocator, the file system, the configuration file and `HOME` answer. Either the
  -- configured action and paths, open streams of the configured kinds, the log file, the logger, the
  -- factory with its creators and the machine are there and wired, and the application owns exactly
  -- what was taken; or, at whichever of its steps the construction failed, everything that was taken is
  -- released, but for the OSAL_FILE block of each close that failed, which stays allocated.
  pub lexleo_app_create_init-AppCreated :
      lexleo_app_supported_cfg cfg ≡ true
      → Returns (AppCreated cfg w) (lexleo_app_create_init cfg lines home w)
  unfolding lexleo_app_create_init
  lexleo_app_create_init-AppCreated ok =
      bind (lexleo_app_create-NewApp w) λ (st, app) w₁ n. created-AppCreated ok n

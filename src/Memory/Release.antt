-- ===== src/Memory/Release.antt =====
-- Sequences of releases, which together give back the sum of what each gives back.
use lex_leo.Prelude.{ℕ, ◌+◌, ◌≤◌, ◌≡◌, Option, none, some, List, [], arith}
use lex_leo.Memory.{Resource, World, M, pure, ◌>>◌, block, unit, free}
use lex_leo.Memory.Balance.{
  Returns, returns, bind, weaken, count, Delta, Holds, free-Delta, unit_self,
}

abbrev pub Amount : Type 0
Amount = Resource → ℕ

-- How often `r` stands in what an optional handle owns.
abbrev pub amount : {A : Type 0} → (A → List Resource) → Option A → Amount
amount own none r = 0
amount own (some a) r = count r (own a)

-- The amount was taken since `w`.
abbrev pub Owning : World → Amount → World → Type 0
Owning w a w' = (r : Resource) → w'.live r ≡ w.live r + a r

-- From every world that holds the amount, the run ends with exactly that amount given back.
abbrev pub Frees : Amount → M (Unit {0}) → Type 0
Frees a m =
    (w : World)
    → ((r : Resource) → a r ≤ w.live r)
    → Returns (λ _ w'. (r : Resource) → w'.live r + a r ≡ w.live r) (m w)

pub Frees-then :
    {A : Type 0} (a b : Amount) (m : M A) (k : M (Unit {0}))
    → ((w : World)
        → ((r : Resource) → a r ≤ w.live r)
        → Returns (λ _ w'. (r : Resource) → w'.live r + a r ≡ w.live r) (m w))
    → Frees b k
    → Frees (λ r. a r + b r) (m >> k)
Frees-then a b m k first rest w h = bind (first w (λ r. omega (arith, h r))) λ _ w₁ d₁.
    weaken (rest w₁ (λ r. omega (arith, h r, d₁ r))) λ _ w₂ d₂ r. omega (arith, d₁ r, d₂ r)

pub free-Frees : (p : ℕ) → Frees (unit (block p)) (free p)
free-Frees p w h =
    weaken (free-Delta p w (omega (arith, h (block p), unit_self (block p))))
      λ _ w' d r. omega (arith, d r)

-- A release of a handle, as a release of an amount.
pub Delta-Frees :
    {A R : Type 0} (own : A → List Resource) (destroy : A → M R)
    → ((a : A) (w : World)
        → Holds (own a) w
        → Returns (λ _ w'. Delta [] (own a) w w') (destroy a w))
    → (a : A) (w : World) → ((r : Resource) → count r (own a) ≤ w.live r)
    → Returns (λ _ w'. (r : Resource) → w'.live r + count r (own a) ≡ w.live r) (destroy a w)
Delta-Frees own destroy gives a w h = weaken (gives a w h) λ _ w' d r. omega (arith, d r)

pub Frees-none : Frees (λ r. 0) (pure tt)
Frees-none w h = returns (λ r. omega arith)

pub Frees-cong :
    (a b : Amount) (m : M (Unit {0})) → ((r : Resource) → a r ≡ b r) → Frees a m → Frees b m
Frees-cong a b m e f w h =
    weaken (f w (λ r. omega (arith, e r, h r))) λ _ w' d r. omega (arith, e r, d r)

-- ===== src/Memory/Balance.antt =====
-- What a run takes and gives back, counted for each resource, and total correctness of a run.
use lex_leo.Prelude.{
  ℕ, ◌+◌, ◌≤◌, ◌<◌, ◌≡◌, ◌≢◌, refl, ap, inl, inr, true, false, Option, none, some, List, [], ◌∷◌,
  ◌++◌, arith, lt→ltb, ◌==◌, Bool-cases, ==_refl, take,
}
use lex_leo.Status.{OsalFileStatus}
use lex_leo.Memory.{
  Resource, block, file, same, World, Run, done, abort, M, and_then, unit, granted, refused,
  released, indeterminate, calloc, free, realloc, open_file, close_file, orphans, allocated,
}

-- The run ends, without an abort, in a result that satisfies `P`.
pub data Returns {A : Type 0} (P : A → World → Type 0) : Run A → Type 0 where
  returns : {a : A} {w : World} → P a w → Returns P (done a w)

module _ {A : Type 0} {P : A → World → Type 0} where
  pub bind :
      {B : Type 0} {Q : B → World → Type 0} {r : Run A} {k : A → M B}
      → Returns P r
      → ((a : A) (w : World) → P a w → Returns Q (k a w))
      → Returns Q (and_then r k)
  bind (returns {a} {w} p) next = next a w p

  pub weaken :
      {Q : A → World → Type 0} {r : Run A}
      → Returns P r
      → ((a : A) (w : World) → P a w → Q a w)
      → Returns Q r
  weaken (returns {a} {w} p) f = returns (f a w p)

pub and_then_assoc :
    {A B C : Type 0} (m : Run A) (k : A → M B) (l : B → M C)
    → and_then (and_then m k) l ≡ and_then m (λ a w. and_then (k a w) l)
and_then_assoc (done a w) k l = refl
and_then_assoc abort k l = refl

-- A run that returns with `P`, and whose result has `Q` besides.
pub Returns-also :
    {A : Type 0} {P Q : A → World → Type 0} {r : Run A}
    → Returns P r
    → ((a : A) (w : World) → r ≡ done a w → Q a w)
    → Returns (λ a w. P a w × Q a w) r
Returns-also (returns {a} {w} p) q = returns (p, q a w refl)

result_of : {A : Type 0} → A → Run A → A
result_of a (done b w) = b
result_of a abort = a

pub done_result : {A : Type 0} {a b : A} {v w : World} → done a v ≡ done b w → a ≡ b
unfolding result_of
done_result {a = a} e = ap (result_of a) e

-- Every request for memory is granted.
abbrev pub AllGranted : World → Type 0
AllGranted w = (n : ℕ) → w.grants n ≡ true

-- How often a resource stands in a list of owned ones.
abbrev pub count : Resource → List Resource → ℕ
count r [] = 0
count r (p ∷ ps) = unit p r + count r ps

pub count-append :
    (r : Resource) (ps qs : List Resource) → count r (ps ++ qs) ≡ count r ps + count r qs
count-append r [] qs = omega arith
count-append r (p ∷ ps) qs = omega (arith, count-append r ps qs)

pub same_refl : (r : Resource) → same r r ≡ true
same_refl (block a) = ==_refl a
same_refl (file a) = ==_refl a

pub unit_self : (r : Resource) → unit r r ≡ 1
unit_self r = rw (same_refl r)

-- A resource that is live leaves room for its own unit at every place.
pub unit-le : (w : World) (p r : Resource) → 0 < w.live p → unit p r ≤ w.live r
unit-le w (block a) (block b) h = elim (Bool-cases (a == b)) [
  | inl e ↦ rw e (let q : a ≡ b = ground arith in rw q at h)
  | inr e ↦ rw e (omega arith)
]
unit-le w (file a) (file b) h = elim (Bool-cases (a == b)) [
  | inl e ↦ rw e (let q : a ≡ b = ground arith in rw q at h)
  | inr e ↦ rw e (omega arith)
]
unit-le w (block a) (file b) h = omega arith
unit-le w (file a) (block b) h = omega arith

-- Of what is held, from `w` to `w'` the resources `gained` were taken and `lost` given back, and nothing
-- else; orphans are not held.
abbrev pub Delta : List Resource → List Resource → World → World → Type 0
Delta gained lost w w' = (r : Resource) → w'.live r + count r lost ≡ w.live r + count r gained

-- The same of everything that is allocated: but for the orphans that failed closes have left between
-- `w` and `w'`, exactly `gained` was allocated or opened and `lost` released.
abbrev pub Settles : List Resource → List Resource → World → World → Type 0
Settles gained lost w w' =
    (r : Resource)
    → allocated w' r + count r lost + orphans w.closes r
      ≡ allocated w r + count r gained + orphans w'.closes r

pub Delta-Settles :
    (gained lost : List Resource) (w w' : World) → Delta gained lost w w' → Settles gained lost w w'
Delta-Settles gained lost w w' d r = omega (arith, d r)

-- What is held is as it was: nothing more, and nothing was taken away.
abbrev pub Balanced : World → World → Type 0
Balanced w w' = Delta [] [] w w'

-- Every resource of the list is live, counted with its multiplicity.
abbrev pub Holds : List Resource → World → Type 0
Holds own w = (r : Resource) → count r own ≤ w.live r

pub free-Delta :
    (p : ℕ) (w : World) → 0 < w.live (block p) → Returns (λ _. Delta [] (block p ∷ []) w) (free p w)
unfolding free
free-Delta p w h = rw (lt→ltb _ _ h) (returns (λ r. omega (arith, unit-le w (block p) r)))

pub close_file-Delta :
    (p : ℕ) (w : World)
    → 0 < w.live (file p)
    → Returns (λ _. Delta [] (file p ∷ []) w) (close_file p w)
unfolding close_file
close_file-Delta p w h = rw (lt→ltb _ _ h) (returns (λ r. omega (arith, unit-le w (file p) r)))

module _ (buf : Option ℕ) (p : ℕ) (bytes : List ℕ) (n : ℕ) (w : World) (at : buf ≡ some p)
    (alive : 0 < w.live (block p)) where
  pub realloc-granted :
      w.grants w.next ≡ true
      → realloc buf bytes n w
        ≡ done
            (some (w.next, take n (bytes ++ indeterminate w.junk n)))
            (granted (block w.next) (released (block p) w))
  unfolding realloc
  realloc-granted e = rw (at, lt→ltb _ _ alive, e)

  pub realloc-refused : w.grants w.next ≡ false → realloc buf bytes n w ≡ done none (refused w)
  unfolding realloc
  realloc-refused e = rw (at, lt→ltb _ _ alive, e)

-- The outcome of a constructor that reports a status: on OK (`good`) a handle that satisfies `P`,
-- with the resources `own` taken for it; on any other status no handle, and nothing more held.
pub data Built {S H : Type 0} (good : S) (own : H → List Resource) (P : H → Type 0) (w : World)
    : S → Option H → World → Type 0 where
  built : {h : H} {w' : World} → P h → Delta (own h) [] w w' → Built good own P w good (some h) w'
  failed : {st : S} {w' : World} → st ≢ good → Balanced w w' → Built good own P w st none w'

abbrev pub Builds :
    {S H : Type 0} → S → (H → List Resource) → (H → Type 0) → World → S × Option H → World → Type 0
Builds good own P w (st, o) w' = Built good own P w st o w'

-- What is live stays live when more is taken, and what was taken is live.
pub Holds-gain : (own : List Resource) (w w' : World) → Delta own [] w w' → Holds own w'
Holds-gain own w w' d r = omega (arith, d r)

-- A result of `calloc`: a fresh block, counted, or nothing.
pub data Allocated (w : World) : Option ℕ → World → Type 0 where
  fresh : (p : ℕ) {w' : World} → Delta (block p ∷ []) [] w w' → Allocated w (some p) w'
  exhausted : {w' : World} → Balanced w w' → Allocated w none w'

pub calloc-Allocated : (w : World) → Returns (Allocated w) (calloc w)
unfolding calloc
calloc-Allocated w = elim (Bool-cases (w.grants w.next)) [
  | inl e ↦ rw e (returns (fresh w.next (λ r. omega arith)))
  | inr e ↦ rw e (returns (exhausted (λ r. refl)))
]

-- A release of a held block, as the first of a list.
pub free-held :
    (p : ℕ) (own : List Resource) (w : World)
    → Holds (block p ∷ own) w
    → Returns (λ _ w'. Delta [] (block p ∷ []) w w' × Holds own w') (free p w)
free-held p own w h =
    weaken (free-Delta p w (omega (arith, h (block p), unit_self (block p))))
      λ _ w' d. (d, λ r. omega (arith, h r, d r))

-- A result of `open`: a fresh open file with status OK, or another status and no file.
pub data Opened (w : World) : OsalFileStatus → Option ℕ → World → Type 0 where
  opened_ok :
      (p : ℕ) {w' : World} → Delta (file p ∷ []) [] w w' → Opened w OsalFileStatus.ok (some p) w'
  not_opened :
      {st : OsalFileStatus} {w' : World}
      → st ≢ OsalFileStatus.ok
      → Balanced w w'
      → Opened w st none w'

open_file_at :
    (st : OsalFileStatus) (w : World)
    → w.answers w.next ≡ st
    → Returns (λ (st, o) w'. Opened w st o w') (open_file w)
unfolding open_file
open_file_at OsalFileStatus.ok w e =
    rw (e, open_file) (returns (opened_ok w.next (λ r. omega arith)))
open_file_at _ w e = rw (e, open_file) (returns (not_opened (cc) (λ r. refl)))

pub open_file-Opened : (w : World) → Returns (λ (st, o) w'. Opened w st o w') (open_file w)
open_file-Opened w = open_file_at (w.answers w.next) w refl

-- The status `bad` with no result.
pub data Reports {S H : Type 0} (bad : S) : S → Option H → Type 0 where
  reports : Reports bad bad none

-- An open that the file system grants.
pub open_file-granted :
    (w : World)
    → w.answers w.next ≡ OsalFileStatus.ok
    → open_file w ≡ done (OsalFileStatus.ok, some w.next) (granted (file w.next) w)
unfolding open_file
open_file-granted w e = rw (e, open_file)

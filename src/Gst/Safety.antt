-- ===== src/Gst/Safety.antt =====
-- A routine that may throw, but whose behaviour is never undefined.
use demo_colombia.Base.{refl, ◌≡◌, Bool, true, false, Option, none, some, if◌then◌else◌}
use demo_colombia.Gst.{
  try_or, or_throw, Option, Bool, M, Env, History, Outcome, returns, throws, undefined, ◌>>=◌,
}
use demo_colombia.Gst.Ensures.{Ensures, Returns}

-- A value is returned and satisfies the predicate, or an exception leaves the routine.
abbrev pub Defined : {A : Type 0} → (A → Type 0) → Outcome A → Type 0
Defined P (returns a) = P a
Defined P throws = Unit {0}
Defined P undefined = ⊥

module _ {A B : Type 0} (P : A → Type 0) (Q : B → Type 0) (f : A → M B) (env : Env) where
  abbrev continue : Outcome A × History → Outcome B × History
  continue r = elim r.0 [
    | returns a ↦ f a env r.1
    | throws ↦ (throws, r.1)
    | undefined ↦ (undefined, r.1)
  ]

  continue-Defined :
      (r : Outcome A × History)
      → Defined P r.0
      → ((a : A) (h : History) → P a → Defined Q (f a env h).0)
      → Defined Q (continue r).0
  continue-Defined (returns a, h) p k = k a h p
  continue-Defined (throws, h) p k = tt
  continue-Defined (undefined, h) p k = absurd p

  continue-throws : (r : Outcome A × History) → r.0 ≡ throws → (continue r).0 ≡ throws
  continue-throws (returns a, h) e = cc
  continue-throws (throws, h) e = refl
  continue-throws (undefined, h) e = cc

  -- An exception ends the sequence.
  pub >>=-throws : (m : M A) (h : History) → (m env h).0 ≡ throws → ((m >>= f) env h).0 ≡ throws
  >>=-throws m h e = continue-throws (m env h) e

  pub >>=-Defined :
      (m : M A) (h : History)
      → Defined P (m env h).0
      → ((a : A) (h' : History) → P a → Defined Q (f a env h').0)
      → Defined Q ((m >>= f) env h).0
  >>=-Defined m h p k = continue-Defined (m env h) p k

pub Defined-of_Returns : {A : Type 0} (P : A → Type 0) (o : Outcome A) → Returns P o → Defined P o
Defined-of_Returns P (returns a) p = p
Defined-of_Returns P throws p = tt
Defined-of_Returns P undefined p = p

pub Defined-of_Ensures :
    {A : Type 0} (P : A → Type 0) (o : Outcome A)
    → Ensures P o
    → Defined (λ _. Unit {0}) o
    → Defined P o
Defined-of_Ensures P (returns a) p d = p
Defined-of_Ensures P throws p d = tt
Defined-of_Ensures P undefined p d = d

pub Defined-any :
    {A : Type 0} (P : A → Type 0) (o : Outcome A) → Defined P o → Defined (λ _. Unit {0}) o
Defined-any P (returns a) p = tt
Defined-any P throws p = tt
Defined-any P undefined p = p

-- The routine's behaviour is never undefined.
abbrev pub IsSafe : {A : Type 0} → Env → M A → Type 0
IsSafe env m = (h : History) → Defined (λ _. Unit {0}) (m env h).0

pub >>=-IsSafe :
    {A B : Type 0} (env : Env) (m : M A) (f : A → M B)
    → IsSafe env m
    → ((a : A) → IsSafe env (f a))
    → IsSafe env (m >>= f)
>>=-IsSafe env m f s k h =
    >>=-Defined (λ _. Unit {0}) (λ _. Unit {0}) f env m h (s h) (λ a h' _. k a h')

pub or_throw-IsSafe : {A : Type 0} (env : Env) (o : Option A) → IsSafe env (or_throw o)
or_throw-IsSafe env none h = tt
or_throw-IsSafe env (some a) h = tt

pub if-IsSafe :
    {A : Type 0} (env : Env) (b : Bool) (m k : M A)
    → IsSafe env m
    → IsSafe env k
    → IsSafe env (if b then m else k)
if-IsSafe env true m k s t = s
if-IsSafe env false m k s t = t

-- What `try_or` makes of an outcome.
abbrev caught : {A : Type 0} → A → Outcome A × History → Outcome A × History
caught a r = elim r.0 [
  | returns b ↦ (returns b, r.1)
  | throws ↦ (returns a, r.1)
  | undefined ↦ (undefined, r.1)
]

caught-Defined :
    {A : Type 0} (a : A) (r : Outcome A × History)
    → Defined (λ _. Unit {0}) r.0
    → Defined (λ _. Unit {0}) (caught a r).0
caught-Defined a (returns b, h) d = tt
caught-Defined a (throws, h) d = tt
caught-Defined a (undefined, h) d = d

pub try_or-IsSafe :
    {A : Type 0} (env : Env) (m : M A) (a : A) → IsSafe env m → IsSafe env (try_or m a)
try_or-IsSafe env m a s h = caught-Defined a (m env h) (s h)

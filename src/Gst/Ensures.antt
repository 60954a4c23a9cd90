-- ===== src/Gst/Ensures.antt =====
-- What holds of the value that a routine returns, and the rule for a sequence of two.
use demo_colombia.Base.{subst, ◌≡◌}
use demo_colombia.Gst.{M, Env, History, Outcome, returns, throws, undefined, ◌>>=◌}

-- The value, if there is one, satisfies the predicate.
abbrev pub Ensures : {A : Type 0} → (A → Type 0) → Outcome A → Type 0
Ensures P (returns a) = P a
Ensures P throws = Unit {0}
Ensures P undefined = Unit {0}

-- A value is returned, and it satisfies the predicate.
abbrev pub Returns : {A : Type 0} → (A → Type 0) → Outcome A → Type 0
Returns P (returns a) = P a
Returns P throws = ⊥
Returns P undefined = ⊥

module _ {A B : Type 0} (P : A → Type 0) (Q : B → Type 0) (f : A → M B) (env : Env) where
  abbrev continue : Outcome A × History → Outcome B × History
  continue r = elim r.0 [
    | returns a ↦ f a env r.1
    | throws ↦ (throws, r.1)
    | undefined ↦ (undefined, r.1)
  ]

  continue-Ensures :
      (r : Outcome A × History)
      → Ensures P r.0
      → ((a : A) (h : History) → P a → Ensures Q (f a env h).0)
      → Ensures Q (continue r).0
  continue-Ensures (returns a, h) p k = k a h p
  continue-Ensures (throws, h) p k = tt
  continue-Ensures (undefined, h) p k = tt

  continue-Returns :
      (r : Outcome A × History)
      → Returns P r.0
      → ((a : A) (h : History) → P a → Returns Q (f a env h).0)
      → Returns Q (continue r).0
  continue-Returns (returns a, h) p k = k a h p
  continue-Returns (throws, h) p k = absurd p
  continue-Returns (undefined, h) p k = absurd p

  pub >>=-Ensures :
      (m : M A) (h : History)
      → Ensures P (m env h).0
      → ((a : A) (h' : History) → P a → Ensures Q (f a env h').0)
      → Ensures Q ((m >>= f) env h).0
  >>=-Ensures m h p k = continue-Ensures (m env h) p k

  pub >>=-Returns :
      (m : M A) (h : History)
      → Returns P (m env h).0
      → ((a : A) (h' : History) → P a → Returns Q (f a env h').0)
      → Returns Q ((m >>= f) env h).0
  >>=-Returns m h p k = continue-Returns (m env h) p k

pub Ensures-of_Returns : {A : Type 0} (P : A → Type 0) (o : Outcome A) → Returns P o → Ensures P o
Ensures-of_Returns P (returns a) p = p
Ensures-of_Returns P throws p = tt
Ensures-of_Returns P undefined p = tt

-- Nothing is asked of the value.
pub Ensures-any : {A : Type 0} (o : Outcome A) → Ensures (λ _. Unit {0}) o
Ensures-any (returns a) = tt
Ensures-any throws = tt
Ensures-any undefined = tt

pub Ensures-map :
    {A : Type 0} (P Q : A → Type 0) (o : Outcome A)
    → ((a : A) → P a → Q a)
    → Ensures P o
    → Ensures Q o
Ensures-map P Q (returns a) f p = f a p
Ensures-map P Q throws f p = tt
Ensures-map P Q undefined f p = tt

pub Returns-map :
    {A : Type 0} (P Q : A → Type 0) (o : Outcome A)
    → ((a : A) → P a → Q a)
    → Returns P o
    → Returns Q o
Returns-map P Q (returns a) f p = f a p
Returns-map P Q throws f p = absurd p
Returns-map P Q undefined f p = absurd p

pub Returns-of_Ensures :
    {A : Type 0} (P : A → Type 0) (o : Outcome A)
    → Ensures P o
    → Returns (λ _. Unit {0}) o
    → Returns P o
Returns-of_Ensures P (returns a) p r = p
Returns-of_Ensures P throws p r = absurd r
Returns-of_Ensures P undefined p r = absurd r

pub Returns-both :
    {A : Type 0} (P Q : A → Type 0) (o : Outcome A)
    → Returns P o
    → Returns Q o
    → Returns (λ a. P a × Q a) o
Returns-both P Q (returns a) p q = (p, q)
Returns-both P Q throws p q = absurd p
Returns-both P Q undefined p q = absurd p

pub Ensures-both :
    {A : Type 0} (P Q : A → Type 0) (o : Outcome A)
    → Ensures P o
    → Ensures Q o
    → Ensures (λ a. P a × Q a) o
Ensures-both P Q (returns a) p q = (p, q)
Ensures-both P Q throws p q = tt
Ensures-both P Q undefined p q = tt

pub Returns-returned :
    {A : Type 0} (P : A → Type 0) (o : Outcome A) {a : A} → Returns P o → o ≡ returns a → P a
Returns-returned P o p e = subst (Returns P) e p

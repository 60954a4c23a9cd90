-- ===== src/Gst/Traces.antt =====
-- What holds of the value that a routine returns and of the history that it leaves.
use demo_colombia.Base.{◌≡◌}
use demo_colombia.Gst.{M, Env, History, Outcome, returns, throws, undefined, ◌>>=◌}

abbrev pub Leaves : {A : Type 0} → (A → History → Type 0) → Outcome A × History → Type 0
Leaves P (returns a, h) = P a h
Leaves P (throws, h) = Unit {0}
Leaves P (undefined, h) = Unit {0}

module _ {A B : Type 0} (P : A → History → Type 0) (Q : B → History → Type 0) (f : A → M B)
    (env : Env) where
  abbrev continue : Outcome A × History → Outcome B × History
  continue r = elim r.0 [
    | returns a ↦ f a env r.1
    | throws ↦ (throws, r.1)
    | undefined ↦ (undefined, r.1)
  ]

  continue-Leaves :
      (r : Outcome A × History)
      → Leaves P r
      → ((a : A) (h : History) → P a h → Leaves Q (f a env h))
      → Leaves Q (continue r)
  continue-Leaves (returns a, h) p k = k a h p
  continue-Leaves (throws, h) p k = tt
  continue-Leaves (undefined, h) p k = tt

  pub >>=-Leaves :
      (m : M A) (h : History)
      → Leaves P (m env h)
      → ((a : A) (h' : History) → P a h' → Leaves Q (f a env h'))
      → Leaves Q ((m >>= f) env h)
  >>=-Leaves m h p k = continue-Leaves (m env h) p k

pub Leaves-map :
    {A : Type 0} (P Q : A → History → Type 0) (r : Outcome A × History)
    → ((a : A) (h : History) → P a h → Q a h)
    → Leaves P r
    → Leaves Q r
Leaves-map P Q (returns a, h) f p = f a h p
Leaves-map P Q (throws, h) f p = tt
Leaves-map P Q (undefined, h) f p = tt

pub Leaves-returned :
    {A : Type 0} (P : A → History → Type 0) (r : Outcome A × History) {a : A}
    → r.0 ≡ returns a
    → Leaves P r
    → (b : A) × P b r.1
Leaves-returned P (returns b, h) e p = (b, p)
Leaves-returned P (throws, h) e p = cc
Leaves-returned P (undefined, h) e p = cc

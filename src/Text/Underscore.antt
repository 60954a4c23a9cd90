-- ===== src/Text/Underscore.antt =====
-- A text that ends in an underscore and a tail without one splits in one way.
use demo_colombia.Base.{ℕ, suc, ◌+◌, ◌≤◌, ◌≡◌, refl, sym, ap, ◌≢◌, [], ◌∷◌, ◌++◌, arith, subst}
use demo_colombia.Base.Int.{ℤ, pos, negsuc}
use demo_colombia.Text.{Bytes, decimal, decimal_int}
use demo_colombia.Text.Decimal.{AllDigits, AllDigits-decimal, decimal_injective}

-- The byte does not stand in the text.
abbrev pub Lacks : ℕ → Bytes → Type 0
Lacks b [] = Unit {0}
Lacks b (c ∷ s) = (c ≢ b) × Lacks b s

Lacks-of_AllDigits : (b : ℕ) (s : Bytes) → b'9' + 1 ≤ b → AllDigits s → Lacks b s
Lacks-of_AllDigits b [] h d = tt
Lacks-of_AllDigits b (c ∷ s) h d = (omega arith, Lacks-of_AllDigits b s h d.2)

not-Lacks-append : (b : ℕ) (s t : Bytes) → ¬ Lacks b (s ++ b ∷ t)
not-Lacks-append b [] t l = l.0 refl
not-Lacks-append b (c ∷ s) t l = not-Lacks-append b s t l.1

decimal-ne-minus : (n : ℕ) (s : Bytes) → decimal n ≢ b'-' ∷ s
decimal-ne-minus n s e = absurd (omega (arith, (subst AllDigits e (AllDigits-decimal n)).0))

-- The last occurrence of a byte splits a text in one way.
pub append_split :
    (b : ℕ) (s t u v : Bytes) → Lacks b u → Lacks b v → s ++ b ∷ u ≡ t ++ b ∷ v → (s ≡ t) × (u ≡ v)
append_split b [] [] u v lu lv e = (refl, cc)
append_split b [] (d ∷ t) u v lu lv e =
    absurd (not-Lacks-append b t v (subst (Lacks b) (tails e) lu))
  where
    tails : b ∷ u ≡ d ∷ (t ++ b ∷ v) → u ≡ t ++ b ∷ v
    tails h = cc
append_split b (c ∷ s) [] u v lu lv e =
    absurd (not-Lacks-append b s u (subst (Lacks b) (tails e) lv))
  where
    tails : c ∷ (s ++ b ∷ u) ≡ b ∷ v → v ≡ s ++ b ∷ u
    tails h = cc
append_split b (c ∷ s) (d ∷ t) u v lu lv e =
    let (same, rest) = append_split b s t u v lu lv (tails e) in (cc, rest)
  where
    tails : c ∷ (s ++ b ∷ u) ≡ d ∷ (t ++ b ∷ v) → s ++ b ∷ u ≡ t ++ b ∷ v
    tails h = cc

pub decimal_int-Lacks : (i : ℤ) → Lacks b'_' (decimal_int i)
unfolding decimal_int
decimal_int-Lacks (pos n) = Lacks-of_AllDigits b'_' _ (omega arith) (AllDigits-decimal n)
decimal_int-Lacks (negsuc n) =
    (omega arith, Lacks-of_AllDigits b'_' _ (omega arith) (AllDigits-decimal (suc n)))

pub decimal_int_injective : (i j : ℤ) → decimal_int i ≡ decimal_int j → i ≡ j
unfolding decimal_int
decimal_int_injective (pos m) (pos n) e = ap pos (decimal_injective m n e)
decimal_int_injective (pos m) (negsuc n) e = absurd (decimal-ne-minus m _ e)
decimal_int_injective (negsuc m) (pos n) e = absurd (decimal-ne-minus n _ (sym e))
decimal_int_injective (negsuc m) (negsuc n) e =
    let same : suc m ≡ suc n = decimal_injective (suc m) (suc n) (cc) in ap negsuc (omega arith)

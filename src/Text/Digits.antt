-- ===== src/Text/Digits.antt =====
-- How many digits a decimal has, and its last one.
use demo_colombia.Base.{
  ℕ, zero, suc, ◌+◌, ◌/◌, ◌%◌, ◌^◌, ◌≤◌, ◌<◌, ◌≡◌, refl, sym, ap, ◌∙◌, inl, inr, Bool-cases, [],
  ◌∷◌, ◌++◌, append_assoc, ltb, length, length-append, arith,
}
use demo_colombia.Text.{Bytes, decimal, digits_from}
use demo_colombia.Text.Decimal.{decimal_small}

-- The digits stand in front of what is there.
digits_from-append :
    (fuel n : ℕ) (out : Bytes) → digits_from fuel n out ≡ digits_from fuel n [] ++ out
unfolding digits_from
digits_from-append zero n out = refl
digits_from-append (suc fuel) n out = elim (Bool-cases (ltb n 10)) [
  | inl small ↦ rw small refl
  | inr big ↦
      let x = b'0' + n % 10 in
      rw big (
        digits_from-append fuel (n / 10) (x ∷ out)
        ∙ sym (append_assoc (digits_from fuel (n / 10) []) (x ∷ []) out)
        ∙ ap (λ l. l ++ out) (sym (digits_from-append fuel (n / 10) (x ∷ []))))
]

-- More fuel than the number makes no difference.
digits_from-fuel :
    (a b n : ℕ) (out : Bytes) → n < a → n < b → digits_from a n out ≡ digits_from b n out
unfolding digits_from
digits_from-fuel zero b n out l m = absurd (omega arith)
digits_from-fuel (suc a) zero n out l m = absurd (omega arith)
digits_from-fuel (suc a) (suc b) n out l m = elim (Bool-cases (ltb n 10)) [
  | inl small ↦ rw small refl
  | inr big ↦
      rw big (digits_from-fuel a b (n / 10) ((b'0' + n % 10) ∷ out) (ground arith) (ground arith))
]

-- The last digit of a larger number.
pub decimal-snoc : (n : ℕ) → 10 ≤ n → decimal n ≡ decimal (n / 10) ++ (b'0' + n % 10) ∷ []
unfolding decimal digits_from
decimal-snoc n h = elim (Bool-cases (ltb n 10)) [
  | inl small ↦ absurd (ground arith)
  | inr big ↦ rw big (
      digits_from-append n (n / 10) ((b'0' + n % 10) ∷ [])
      ∙ ap (λ l. l ++ (b'0' + n % 10) ∷ [])
          (digits_from-fuel n (suc (n / 10)) (n / 10) [] (omega arith) (omega arith)))
]

pub length-decimal_small : (n : ℕ) → n < 10 → length (decimal n) ≡ 1
length-decimal_small n h = ap length (decimal_small n h)

pub length-decimal_suc : (n : ℕ) → 10 ≤ n → length (decimal n) ≡ length (decimal (n / 10)) + 1
length-decimal_suc n h =
    ap length (decimal-snoc n h) ∙ length-append (decimal (n / 10)) ((b'0' + n % 10) ∷ [])

tenth : (k n : ℕ) → n < 10 ^ suc (suc k) → n / 10 < 10 ^ suc k
tenth k n h = omega arith

-- A number below a power of ten has no more digits than the exponent.
pub length-decimal_le : (k n : ℕ) → n < 10 ^ suc k → length (decimal n) ≤ suc k
length-decimal_le zero n h = omega (arith, length-decimal_small n (omega arith))
length-decimal_le (suc k) n h = elim (Bool-cases (ltb n 10)) [
  | inl small ↦ omega (arith, length-decimal_small n (ground arith))
  | inr big ↦
      let large : 10 ≤ n = ground arith in
      omega (arith, length-decimal_suc n large, length-decimal_le k (n / 10) (tenth k n h))
]

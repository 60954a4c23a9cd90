-- ===== src/Text/Decimal.antt =====
-- A decimal numeral can be read back, so distinct numbers have distinct numerals.
use demo_colombia.Base.{
  ℕ, zero, suc, ◌+◌, ◌-◌, ◌*◌, ◌/◌, ◌%◌, ◌≤◌, ◌<◌, ◌≡◌, refl, sym, ap, ◌∙◌, inl, inr, [], ◌∷◌,
  arith, ltb, lt→ltb, length, Bool-cases,
}
use demo_colombia.Text.{Bytes, digits_from, decimal, pad_zeros}

-- Reading digits after the number read so far.
abbrev pub read_from : ℕ → Bytes → ℕ
read_from n [] = n
read_from n (c ∷ s) = read_from (n * 10 + (c - b'0')) s

read_from-digits_from :
    (fuel n : ℕ) (out : Bytes) → n < fuel → read_from 0 (digits_from fuel n out) ≡ read_from n out
unfolding digits_from
read_from-digits_from zero n out h = absurd (omega arith)
read_from-digits_from (suc fuel) n out h = elim (Bool-cases (ltb n 10)) [
  | inl small ↦ rw small (ap (λ k. read_from k out) (omega arith))
  | inr big ↦ rw big (
      read_from-digits_from fuel (n / 10) ((b'0' + n % 10) ∷ out) (ground arith)
      ∙ ap (λ k. read_from k out) (omega arith))
]

-- The numeral of a number reads back as the number.
pub read_from-decimal : (n : ℕ) → read_from 0 (decimal n) ≡ n
unfolding decimal
read_from-decimal n = read_from-digits_from (suc n) n [] (omega arith)

pub decimal_injective : (m n : ℕ) → decimal m ≡ decimal n → m ≡ n
decimal_injective m n e = sym (read_from-decimal m) ∙ ap (read_from 0) e ∙ read_from-decimal n

-- All bytes of the text are digits.
abbrev pub AllDigits : Bytes → Type 0
AllDigits [] = Unit {0}
AllDigits (c ∷ s) = (b'0' ≤ c) × (c ≤ b'9') × AllDigits s

AllDigits-digits_from :
    (fuel n : ℕ) (out : Bytes) → AllDigits out → AllDigits (digits_from fuel n out)
unfolding digits_from
AllDigits-digits_from zero n out d = d
AllDigits-digits_from (suc fuel) n out d = elim (Bool-cases (ltb n 10)) [
  | inl small ↦ rw small (omega arith, ground arith, d)
  | inr big ↦
      rw big
        (AllDigits-digits_from fuel (n / 10) ((b'0' + n % 10) ∷ out) (omega arith, omega arith, d))
]

pub AllDigits-decimal : (n : ℕ) → AllDigits (decimal n)
unfolding decimal
AllDigits-decimal n = AllDigits-digits_from (suc n) n [] tt

-- Padding zeros are read as nothing.
pub read_from-pad_zeros : (w : ℕ) (s : Bytes) → read_from 0 (pad_zeros w s) ≡ read_from 0 s
unfolding pad_zeros
read_from-pad_zeros zero s = refl
read_from-pad_zeros (suc w) s = ground (arith, read_from-pad_zeros w s)

-- A one-digit numeral.
pub decimal_small : (n : ℕ) → n < 10 → decimal n ≡ (b'0' + n) ∷ []
unfolding decimal digits_from
decimal_small n h = rw (lt→ltb n 10 h)

length-digits_from :
    (fuel n : ℕ) (out : Bytes) → length out + 1 ≤ length (digits_from (suc fuel) n out)
unfolding digits_from
length-digits_from zero n out = ground arith
length-digits_from (suc fuel) n out = elim (Bool-cases (ltb n 10)) [
  | inl small ↦ rw small (omega arith)
  | inr big ↦ rw big (omega (arith, length-digits_from fuel (n / 10) ((b'0' + n % 10) ∷ out)))
]

length-digits_from_big : (fuel n : ℕ) → 10 ≤ n → 2 ≤ length (digits_from (suc (suc fuel)) n [])
unfolding digits_from
length-digits_from_big fuel n h = elim (Bool-cases (ltb n 10)) [
  | inl small ↦ absurd (ground arith)
  | inr big ↦ rw big (length-digits_from fuel (n / 10) ((b'0' + n % 10) ∷ []))
]

-- A larger number has at least two digits.
pub two-le-length-decimal : (n : ℕ) → 10 ≤ n → 2 ≤ length (decimal n)
unfolding decimal
two-le-length-decimal zero h = absurd (omega arith)
two-le-length-decimal (suc n) h = length-digits_from_big n (suc n) h

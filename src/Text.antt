-- ===== src/Text.antt =====
-- The texts that the program formats: `std::to_string`, and the conversions %d, %u, %02d and %07d of
-- `g_snprintf`, which writes at most n - 1 bytes. A text is the list of its bytes.
pub mod Decimal
pub mod Underscore
pub mod Digits
use Prim.Native.Char.{code}
use demo_colombia.Base.{
  Bool, true, false, ◌==◌, ◌&&◌, ℕ, zero, suc, ◌+◌, ◌-◌, ◌/◌, ◌%◌, String, List, [], ◌∷◌, ◌++◌, ltb,
  if◌then◌else◌, length, take,
}
use demo_colombia.Base.Int.{ℤ, pos, negsuc}

abbrev pub Bytes : Type 0
Bytes = List ℕ

-- The bytes of an ASCII literal.
abbrev pub codes : String → Bytes
codes String.[] = []
codes (String.◌∷◌ c s) = code c ∷ codes s

-- `c_str()` as a C function reads it: up to the first NUL.
abbrev pub c_str : Bytes → Bytes
c_str [] = []
c_str (b ∷ s) = if b == 0 then [] else b ∷ c_str s

abbrev pub same_bytes : Bytes → Bytes → Bool
same_bytes [] [] = true
same_bytes (a ∷ s) (b ∷ t) = a == b && same_bytes s t
same_bytes _ _ = false

-- The digits of n in front of `out`; a number has fewer digits than the fuel n + 1 given below.
digits_from : ℕ → ℕ → Bytes → Bytes
digits_from zero n out = out
digits_from (suc fuel) n out =
    let rest = digits_from fuel (n / 10) ((b'0' + n % 10) ∷ out) in
    if ltb n 10 then (b'0' + n) ∷ out else rest

unfoldable pub decimal : ℕ → Bytes
unfolding digits_from
decimal n = digits_from (suc n) n []

-- %d and `std::to_string(int)`.
unfoldable pub decimal_int : ℤ → Bytes
unfolding decimal
decimal_int (pos n) = decimal n
decimal_int (negsuc n) = b'-' ∷ decimal (suc n)

-- Zeros in front, up to the width.
unfoldable pub pad_zeros : ℕ → Bytes → Bytes
pad_zeros zero s = s
pad_zeros (suc w) s = let rest = pad_zeros w s in if ltb w (length s) then s else b'0' ∷ rest

-- %0wd: the sign counts in the width and stands in front of the zeros.
unfoldable pub decimal_padded : ℕ → ℤ → Bytes
unfolding pad_zeros
decimal_padded w (pos n) = pad_zeros w (decimal n)
decimal_padded w (negsuc n) = b'-' ∷ pad_zeros (w - 1) (decimal (suc n))

-- `g_snprintf(buf, size, …)`: the text, cut to leave room for the final NUL.
unfoldable pub snprintf : ℕ → Bytes → Bytes
snprintf size text = take (size - 1) text

-- ===== src/Source/Names.antt =====
-- The names that `g_snprintf` cuts to 14 bytes: which bins get one name, and that pads get different
-- names.
use demo_colombia.Base.{
  ℕ, zero, suc, ◌+◌, ◌/◌, ◌%◌, ◌^◌, ◌≤◌, ◌<◌, ◌≡◌, ◌↔◌, refl, sym, ap, subst, ◌∙◌, inl, inr,
  Bool-cases, List, [], ◌∷◌, ◌++◌, ltb, if◌then◌else◌, length, take, drop, arith,
}
use demo_colombia.Base.Int.{pos}
use demo_colombia.Text.{Bytes, codes, decimal, decimal_padded, pad_zeros, snprintf}
use demo_colombia.Text.Decimal.{
  two-le-length-decimal, read_from, read_from-decimal, read_from-pad_zeros, decimal_injective,
}
use demo_colombia.Text.Digits.{
  decimal-snoc, length-decimal_small, length-decimal_suc, length-decimal_le,
}
use demo_colombia.Source.{source_bin_name}
use demo_colombia.Pads.{sink_pad_name}
use demo_colombia.Frames.Names.{take_all, snprintf_fits}

take-append {ℓ} : {A : Type ℓ} (xs ys : List A) → take (length xs) (xs ++ ys) ≡ xs
take-append [] ys = refl
take-append (x ∷ xs) ys = ap (◌∷◌ x) (take-append xs ys)

pad_zeros_long : (w : ℕ) (s : Bytes) → w ≤ length s → pad_zeros w s ≡ s
unfolding pad_zeros
pad_zeros_long zero s h = refl
pad_zeros_long (suc w) s h = ground arith

-- Two digits and more are not padded, one digit is.
pad_two : (n : ℕ) → 10 ≤ n → decimal_padded 2 (pos n) ≡ decimal n
unfolding decimal_padded
pad_two n h = pad_zeros_long 2 (decimal n) (two-le-length-decimal n h)

length-padded : (n : ℕ) → n < 1000 → length (decimal_padded 2 (pos n)) ≤ 3
unfolding decimal_padded pad_zeros
length-padded n h = ground (arith, length-decimal_le 2 n (omega arith))

-- The index whose digits are seen in the name.
abbrev pub seen_index : ℕ → ℕ
seen_index n = if ltb n 1000 then n else n / 10

padded_injective : (m n : ℕ) → decimal_padded 2 (pos m) ≡ decimal_padded 2 (pos n) → m ≡ n
unfolding decimal_padded
padded_injective m n e =
    sym (read_from-decimal m)
    ∙ sym (read_from-pad_zeros 2 (decimal m))
    ∙ ap (read_from 0) e
    ∙ read_from-pad_zeros 2 (decimal n)
    ∙ read_from-decimal n

name-small :
    (n : ℕ) → n < 1000 → source_bin_name (pos n) ≡ codes "source-bin-" ++ decimal_padded 2 (pos n)
unfolding source_bin_name snprintf
name-small n h =
    ap (λ l. codes "source-bin-" ++ l) (take_all 3 (decimal_padded 2 (pos n)) (length-padded n h))

three_digits : (m : ℕ) → 100 ≤ m → m < 1000 → length (decimal m) ≡ 3
three_digits m h k = omega (
  arith,
  length-decimal_suc m (omega arith),
  length-decimal_suc (m / 10) (omega arith),
  length-decimal_small (m / 10 / 10) (omega arith),
)

first_three :
    (n : ℕ)
    → 1000 ≤ n
    → n < 10000
    → take 3 (decimal_padded 2 (pos n)) ≡ decimal_padded 2 (pos (n / 10))
first_three n h k =
    let tenth = decimal (n / 10) in
    let last : Bytes = (b'0' + n % 10) ∷ [] in
    ap (take 3) (pad_two n (omega arith) ∙ decimal-snoc n (omega arith))
    ∙ subst (λ j. take j (tenth ++ last) ≡ tenth)
        (three_digits (n / 10) (omega arith) (omega arith)) (take-append tenth last)
    ∙ sym (pad_two (n / 10) (omega arith))

name-large :
    (n : ℕ)
    → 1000 ≤ n
    → n < 10000
    → source_bin_name (pos n) ≡ codes "source-bin-" ++ decimal_padded 2 (pos (n / 10))
unfolding source_bin_name snprintf
name-large n h k = ap (λ l. codes "source-bin-" ++ l) (first_three n h k)

name-seen :
    (n : ℕ)
    → n < 10000
    → source_bin_name (pos n) ≡ codes "source-bin-" ++ decimal_padded 2 (pos (seen_index n))
name-seen n h = elim (Bool-cases (ltb n 1000)) [
  | inl small ↦ rw small (name-small n (ground arith))
  | inr large ↦ rw large (name-large n (ground arith) h)
]

-- Of indices below 10000, two give one bin name exactly if they agree once the last digit of those from
-- 1000 on is dropped; so those below 1000 have different names, and 1000 has the name of 100.
pub source_bin_name_same :
    (m n : ℕ)
    → m < 10000
    → n < 10000
    → (source_bin_name (pos m) ≡ source_bin_name (pos n)) ↔ (seen_index m ≡ seen_index n)
source_bin_name_same m n h k = (
  λ e.
      padded_injective (seen_index m) (seen_index n)
        (ap (drop 11) (sym (name-seen m h) ∙ e ∙ name-seen n k)),
  λ e.
      name-seen m h
      ∙ ap (λ j. codes "source-bin-" ++ decimal_padded 2 (pos j)) e
      ∙ sym (name-seen n k),
)

sink_pad_name_fits : (n : ℕ) → n < 10 ^ 9 → sink_pad_name (pos n) ≡ codes "sink_" ++ decimal n
unfolding sink_pad_name
sink_pad_name_fits n h =
    let same : n % 2 ^ 32 ≡ n = omega arith in
    ap (λ k. snprintf 15 (codes "sink_" ++ decimal k)) same
    ∙ snprintf_fits 15 (codes "sink_" ++ decimal n) (omega (arith, length-decimal_le 8 n h))

-- Pad indices below 10^9 fit into the 15 bytes of a pad's name, so the muxer's pads of two of them have
-- different names.
pub sink_pad_name_injective :
    (m n : ℕ) → m < 10 ^ 9 → n < 10 ^ 9 → sink_pad_name (pos m) ≡ sink_pad_name (pos n) → m ≡ n
sink_pad_name_injective m n h k e =
    decimal_injective m n (ap (drop 5) (sym (sink_pad_name_fits m h) ∙ e ∙ sink_pad_name_fits n k))

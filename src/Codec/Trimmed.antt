-- ===== src/Codec/Trimmed.antt =====
-- Trimming leaves a decimal number as it is.
use mathlib.Core.List.{reverse, reverse-append}
use aegis_link.Common.{
  ℕ, suc, ◌+◌, ◌%◌, ◌/◌, ◌≤◌, ◌≡◌, refl, ap, ◌∙◌, inl, inr, [], ◌∷◌, ◌++◌, arith, Bool-cases, ltb,
}
use aegis_link.Common.Int.{ℤ, pos, negsuc, ◌≤ℤ◌}
use aegis_link.Text.{
  Text, trim_space, trim_right, space_width, space_width_back, is_space₁, is_space₂, is_space₃,
}
use aegis_link.Text.Trim.{trim_left_clean, trim_right_clean}
use aegis_link.Codec.{decimal, int_decimal, digits_from}
use aegis_link.Codec.Decimal.{digits_from-head}

-- A text that ends in a digit.
pub record EndsInDigit (t : Text) : Type 0 where
  pub front : Text
  pub digit : ℕ
  pub split : t ≡ front ++ digit ∷ []
  pub low : 48 ≤ digit
  pub high : digit ≤ 57

pub digits_from-EndsInDigit : (fuel n : ℕ) → EndsInDigit (digits_from (suc fuel) n)
unfolding digits_from
digits_from-EndsInDigit fuel n = elim (Bool-cases (ltb n 10)) [
  | inl short ↦
      rw (short, digits_from)
        (record {
          front = [];
          digit = n + 48;
          split = refl;
          low = omega arith;
          high = ground arith;
        })
  | inr long ↦
      rw (long, digits_from)
        (record {
          front = digits_from fuel (n / 10);
          digit = n % 10 + 48;
          split = refl;
          low = omega arith;
          high = omega arith;
        })
]

pub digit-width_back : (d : ℕ) (r : Text) → 48 ≤ d → d ≤ 57 → space_width_back (d ∷ r) ≡ 0
unfolding space_width_back is_space₁ is_space₂ is_space₃
digit-width_back d [] lo hi = ground arith
digit-width_back d (b ∷ []) lo hi = ground arith
digit-width_back d (b ∷ c ∷ r) lo hi = ground arith

digit-width : (d : ℕ) (r : Text) → 48 ≤ d → d ≤ 57 → space_width (d ∷ r) ≡ 0
unfolding space_width is_space₁ is_space₂ is_space₃
digit-width d [] lo hi = ground arith
digit-width d (b ∷ []) lo hi = ground arith
digit-width d (b ∷ c ∷ r) lo hi = ground arith

trim_space-decimal : (n : ℕ) → trim_space (decimal n) ≡ decimal n
unfolding trim_space decimal
trim_space-decimal n =
    let t = digits_from (suc n) n in
    let (b, s, starts, lo, hi) = digits_from-head n n in
    let e = digits_from-EndsInDigit n n in
    let front : space_width t ≡ 0 = ap space_width starts ∙ digit-width b s lo hi in
    let back : space_width_back (reverse t) ≡ 0 =
      ap (λ t. space_width_back (reverse t)) e.split
      ∙ ap space_width_back (reverse-append e.front (e.digit ∷ []))
      ∙ digit-width_back e.digit (reverse e.front) e.low e.high in
    ap trim_right (trim_left_clean t front) ∙ trim_right_clean t back

-- Neither does it change the text of a positive number.
pub trim_space-int_decimal : (z : ℤ) → pos 1 ≤ℤ z → trim_space (int_decimal z) ≡ int_decimal z
unfolding int_decimal
trim_space-int_decimal (pos n) positive = trim_space-decimal n
trim_space-int_decimal (negsuc n) positive = absurd (omega arith)

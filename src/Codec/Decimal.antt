-- ===== src/Codec/Decimal.antt =====
-- Printing an integer in base 10 and reading it back.
use aegis_link.Common.{
  ℕ, zero, suc, ◌+◌, ◌-◌, ◌*◌, ◌/◌, ◌%◌, ◌≤◌, ◌<◌, ◌≡◌, refl, sym, ap, ◌∙◌, [], ◌∷◌, ◌++◌, arith,
  Option, none, some, ltb, Bool-cases, inl, inr,
}
use aegis_link.Common.Int.{ℤ, pos, negsuc}
use aegis_link.Text.{Text}
use aegis_link.Codec.{digits_from, decimal, int_decimal, parse_digits, parse_unsigned, set_string}

-- Reading on from what a text gives.
abbrev and_then : Option ℕ → (ℕ → Option ℕ) → Option ℕ
and_then none f = none
and_then (some n) f = f n

parse_digits-append :
    (acc : ℕ) (s t : Text)
    → parse_digits acc (s ++ t) ≡ and_then (parse_digits acc s) (λ n. parse_digits n t)
unfolding parse_digits
parse_digits-append acc [] t = refl
parse_digits-append acc (b ∷ s) t = ground (arith, parse_digits-append (acc * 10 + (b - 48)) s t)

parse_digits-digits_from : (fuel n : ℕ) → n < fuel → parse_digits 0 (digits_from fuel n) ≡ some n
unfolding digits_from parse_digits
parse_digits-digits_from zero n h = absurd (omega arith)
parse_digits-digits_from (suc fuel) n h = ground (
  arith,
  parse_digits-digits_from fuel (n / 10),
  parse_digits-append 0 (digits_from fuel (n / 10)) ((n % 10 + 48) ∷ []),
)

-- A printed number begins with a digit.
pub digits_from-head :
    (fuel n : ℕ) → (b : ℕ) × (s : Text) × (digits_from (suc fuel) n ≡ b ∷ s) × (48 ≤ b) × (b ≤ 57)
unfolding digits_from
digits_from-head zero n = elim (Bool-cases (ltb n 10)) [
  | inl short ↦ (n + 48, [], ground arith, omega arith, ground arith)
  | inr long ↦ (n % 10 + 48, [], ground arith, omega arith, omega arith)
]
digits_from-head (suc fuel) n = elim (Bool-cases (ltb n 10)) [
  | inl short ↦ (n + 48, [], ground arith, omega arith, ground arith)
  | inr long ↦
      let (b, s, e, lo, hi) = digits_from-head fuel (n / 10) in
      (b, s ++ (n % 10 + 48) ∷ [], rw long (rw e), lo, hi)
]

pub parse_unsigned-decimal : (n : ℕ) → parse_unsigned (decimal n) ≡ some n
unfolding decimal parse_unsigned parse_digits
parse_unsigned-decimal n =
    let (b, s, e, lo, hi) = digits_from-head n n in
    whole (digits_from (suc n) n) b s e (parse_digits-digits_from (suc n) n (omega arith))
  where
    whole :
        (t : Text) (b : ℕ) (s : Text)
        → t ≡ b ∷ s
        → parse_digits 0 t ≡ some n
        → parse_unsigned t ≡ some n
    whole [] b s e h = cc
    whole (c ∷ t) b s e h = h

-- What `big.Int.String` writes, `SetString` in base 10 reads back.
pub set_string-int_decimal : (z : ℤ) → set_string (int_decimal z) ≡ some z
unfolding set_string int_decimal decimal
set_string-int_decimal (negsuc n) = rw (parse_unsigned-decimal (suc n))
set_string-int_decimal (pos n) =
    let (b, s, e, lo, hi) = digits_from-head n n in
    unsigned (digits_from (suc n) n) b s e lo (parse_unsigned-decimal n)
  where
    unsigned :
        (t : Text) (b : ℕ) (s : Text)
        → t ≡ b ∷ s
        → 48 ≤ b
        → parse_unsigned t ≡ some n
        → set_string t ≡ some (pos n)
    unsigned [] b s e lo h = cc
    unsigned (c ∷ t) b s e lo h = ground arith

-- Two integers with the same decimal form are the same.
pub int_decimal-inj : (y z : ℤ) → int_decimal y ≡ int_decimal z → y ≡ z
int_decimal-inj y z e =
    cc (sym (set_string-int_decimal y) ∙ ap set_string e ∙ set_string-int_decimal z)

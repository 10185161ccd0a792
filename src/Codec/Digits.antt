-- ===== src/Codec/Digits.antt =====
-- Where a decimal number ends: no digit is a separator.
use aegis_link.Common.{
  ℕ, zero, suc, ◌+◌, ◌/◌, ◌%◌, ◌<◌, ◌≡◌, ◌≢◌, refl, none, [], ◌∷◌, ◌++◌, arith, ltb, Bool-cases,
  inl, inr,
}
use aegis_link.Common.Int.{pos}
use aegis_link.Text.{Text, cut_after}
use aegis_link.Codec.{digits_from, decimal, int_decimal}
use aegis_link.Codec.Decimal.{int_decimal-inj}

cut_after-append :
    (sep : ℕ) (s : Text) (b : ℕ)
    → cut_after sep s ≡ none
    → b ≢ sep
    → cut_after sep (s ++ b ∷ []) ≡ none
unfolding cut_after
cut_after-append sep [] b h ne = ground arith
cut_after-append sep (a ∷ s) b h ne = ground (arith, cut_after-append sep s b)

-- A separator is no digit.
abbrev pub IsSeparator : ℕ → Type 0
IsSeparator sep = (d : ℕ) → d < 10 → d + 48 ≢ sep

cut_after-digits_from :
    (sep fuel n : ℕ) → IsSeparator sep → cut_after sep (digits_from fuel n) ≡ none
unfolding digits_from
cut_after-digits_from sep zero n h = unfold cut_after in refl
cut_after-digits_from sep (suc fuel) n h = elim (Bool-cases (ltb n 10)) [
  | inl small ↦
      rw small (cut_after-append sep [] (n + 48) (unfold cut_after in refl) (h n (ground arith)))
  | inr large ↦ rw large (
      cut_after-append sep (digits_from fuel (n / 10)) (n % 10 + 48)
        (cut_after-digits_from sep fuel (n / 10) h) (h (n % 10) (omega arith)))
]

pub cut_after-decimal : (sep n : ℕ) → IsSeparator sep → cut_after sep (decimal n) ≡ none
unfolding decimal
cut_after-decimal sep n h = cut_after-digits_from sep (suc n) n h

-- Two texts up to a separator that they lack.
pub cut-inj :
    (sep : ℕ) (s t x y : Text)
    → cut_after sep s ≡ none
    → cut_after sep t ≡ none
    → s ++ sep ∷ x ≡ t ++ sep ∷ y
    → (s ≡ t) × (x ≡ y)
unfolding cut_after
cut-inj sep [] [] x y hs ht e = (refl, cc)
cut-inj sep [] (b ∷ t) x y hs ht e = absurd (let q : sep ≡ b = cc in ground arith)
cut-inj sep (a ∷ s) [] x y hs ht e = absurd (let q : a ≡ sep = cc in ground arith)
cut-inj sep (a ∷ s) (b ∷ t) x y hs ht e =
    let (p, q) = cut-inj sep s t x y (ground arith) (ground arith) (cc) in (cc, q)

pub decimal-inj : (m n : ℕ) → decimal m ≡ decimal n → m ≡ n
unfolding int_decimal
decimal-inj m n e = let same : pos m ≡ pos n = int_decimal-inj (pos m) (pos n) e in cc

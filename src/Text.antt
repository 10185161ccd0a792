-- ===== src/Text.antt =====
-- Go strings as their bytes, and what the program uses of the packages `strings` and `unicode`.
-- `strings.ToLower` and `strings.EqualFold` are modelled on ASCII letters: bytes from 0x80 up are
-- kept. `strings.TrimSpace` is exact, with the multi-byte white space of Unicode.
pub mod Trim
mod Tests
use Prim.Native.String.{String}
use Prim.Native.Char.{code}
use mathlib.Core.List.{reverse}
use aegis_link.Common.{
  ℕ, zero, suc, ◌+◌, ◌≡◌, refl, ◌↔◌, Bool, true, false, ◌&&◌, ◌||◌, List, [], ◌∷◌, ◌++◌, map, arith,
  leb, nat_beq, nat_beq_iff, if◌then◌else◌, Eq, not, length, Option, none, some,
}

abbrev pub Text : Type 0
Text = List ℕ

-- The bytes of an ASCII literal.
abbrev pub lit : String → Text
lit String.[] = []
lit (String.◌∷◌ c s) = code c ∷ lit s

unfoldable pub text_beq : Text → Text → Bool
text_beq [] [] = true
text_beq [] (b ∷ t) = false
text_beq (a ∷ s) [] = false
text_beq (a ∷ s) (b ∷ t) = nat_beq a b && text_beq s t

pub text_beq_iff : (s t : Text) → (text_beq s t ≡ true) ↔ (s ≡ t)
unfolding text_beq
text_beq_iff [] [] = ((λ h. refl), (λ h. refl))
text_beq_iff [] (b ∷ t) = ((λ h. cc), (λ h. cc))
text_beq_iff (a ∷ s) [] = ((λ h. cc), (λ h. cc))
text_beq_iff (a ∷ s) (b ∷ t) = (
  (λ h. ground (arith, text_beq_iff s t, nat_beq_iff a b)),
  (λ h. ground (arith, text_beq_iff s t, nat_beq_iff a b)),
)

instance abbrev pub text_eq : Eq Text
text_eq = record { beq = text_beq; beq_iff = text_beq_iff }

abbrev between : ℕ → ℕ → ℕ → Bool
between lo hi b = leb lo b && leb b hi

-- The white space of one byte: \t, \n, \v, \f, \r and the blank.
unfoldable pub is_space₁ : ℕ → Bool
is_space₁ a = between 0x09 0x0d a || nat_beq a 0x20

-- U+0085 and U+00A0.
unfoldable pub is_space₂ : ℕ → ℕ → Bool
is_space₂ a b = nat_beq a 0xc2 && (nat_beq b 0x85 || nat_beq b 0xa0)

-- U+1680, U+2000 to U+200A, U+2028, U+2029, U+202F, U+205F and U+3000.
unfoldable pub is_space₃ : ℕ → ℕ → ℕ → Bool
is_space₃ a b c =
    nat_beq a 0xe1 && nat_beq b 0x9a && nat_beq c 0x80
    || nat_beq a 0xe2
      && (nat_beq b 0x80
            && (between 0x80 0x8a c || nat_beq c 0xa8 || nat_beq c 0xa9 || nat_beq c 0xaf)
          || nat_beq b 0x81 && nat_beq c 0x9f)
    || nat_beq a 0xe3 && nat_beq b 0x80 && nat_beq c 0x80

-- How many bytes the white space at the front of a text takes, 0 if there is none.
unfoldable pub space_width : Text → ℕ
space_width [] = 0
space_width (a ∷ []) = if is_space₁ a then 1 else 0
space_width (a ∷ b ∷ []) = if is_space₁ a then 1 else if is_space₂ a b then 2 else 0
space_width (a ∷ b ∷ c ∷ s) =
    if is_space₁ a then 1 else if is_space₂ a b then 2 else if is_space₃ a b c then 3 else 0

-- The same for a text that is read from its end.
unfoldable pub space_width_back : Text → ℕ
space_width_back [] = 0
space_width_back (a ∷ []) = if is_space₁ a then 1 else 0
space_width_back (a ∷ b ∷ []) = if is_space₁ a then 1 else if is_space₂ b a then 2 else 0
space_width_back (a ∷ b ∷ c ∷ s) =
    if is_space₁ a then 1 else if is_space₂ b a then 2 else if is_space₃ c b a then 3 else 0

-- Drops white space from the front; the number counts the bytes left of the character being
-- dropped.
unfoldable pub drop_space : (Text → ℕ) → ℕ → Text → Text
drop_space width k [] = []
drop_space width (suc k) (a ∷ s) = drop_space width k s
drop_space width zero (a ∷ s) = elim (width (a ∷ s)) [ zero ↦ a ∷ s | suc k ↦ drop_space width k s ]

unfoldable pub trim_left : Text → Text
unfolding drop_space space_width is_space₁ is_space₂ is_space₃
trim_left s = drop_space space_width 0 s

unfoldable pub trim_right : Text → Text
unfolding drop_space space_width_back is_space₁ is_space₂ is_space₃
trim_right s = reverse (drop_space space_width_back 0 (reverse s))

-- `strings.TrimSpace`
unfoldable pub trim_space : Text → Text
unfolding trim_left trim_right
trim_space s = trim_right (trim_left s)

-- `strings.TrimSpace(s) == ""`
abbrev pub is_blank : Text → Bool
is_blank s = text_beq (trim_space s) []

abbrev pub lower_byte : ℕ → ℕ
lower_byte b = if between 0x41 0x5a b then b + 32 else b

-- `strings.ToLower`
unfoldable pub to_lower : Text → Text
to_lower s = map lower_byte s

-- `strings.EqualFold`
unfoldable pub equal_fold : Text → Text → Bool
unfolding to_lower
equal_fold s t = text_beq (to_lower s) (to_lower t)

-- `strings.HasPrefix`
unfoldable pub has_prefix : Text → Text → Bool
has_prefix s [] = true
has_prefix [] (b ∷ p) = false
has_prefix (a ∷ s) (b ∷ p) = nat_beq a b && has_prefix s p

-- `before, after, found := strings.Cut(s, sep)` for a separator of one byte.
unfoldable pub cut_before : ℕ → Text → Text
cut_before sep [] = []
cut_before sep (a ∷ s) = if nat_beq a sep then [] else a ∷ cut_before sep s

-- What follows the first separator, if there is one.
unfoldable pub cut_after : ℕ → Text → Option Text
cut_after sep [] = none
cut_after sep (a ∷ s) = if nat_beq a sep then some s else cut_after sep s

-- ===== src/Text/Trim.antt =====
-- Laws of `strings.TrimSpace`.
use mathlib.Core.List.{reverse, reverse-reverse, reverse-append}
use aegis_link.Common.{ℕ, zero, suc, ◌≡◌, refl, sym, ap, ◌∙◌, [], ◌∷◌, ◌++◌, arith}
use aegis_link.Text.{
  Text, space_width, space_width_back, drop_space, trim_left, trim_right, trim_space,
}

module _ (width : Text → ℕ) where
  -- Dropping stops only where no white space is in front.
  drop_space-IsClean : width [] ≡ 0 → (k : ℕ) (s : Text) → width (drop_space width k s) ≡ 0
  unfolding drop_space
  drop_space-IsClean h k [] = h
  drop_space-IsClean h (suc k) (a ∷ s) = drop_space-IsClean h k s
  drop_space-IsClean h zero (a ∷ s) = stop (width (a ∷ s)) refl (λ k. drop_space-IsClean h k s)
    where
      stop :
          (n : ℕ)
          → width (a ∷ s) ≡ n
          → ((k : ℕ) → width (drop_space width k s) ≡ 0)
          → width (elim n [ zero ↦ a ∷ s | suc k ↦ drop_space width k s ]) ≡ 0
      stop zero e ih = e
      stop (suc k) e ih = ih k

  -- Where no white space is in front, nothing is dropped.
  drop_space_clean : (s : Text) → width s ≡ 0 → drop_space width 0 s ≡ s
  unfolding drop_space
  drop_space_clean [] h = refl
  drop_space_clean (a ∷ s) h = rw (h, drop_space)

  -- What is left is an end of the text.
  drop_space-suffix : (k : ℕ) (s : Text) → (p : Text) × (p ++ drop_space width k s ≡ s)
  unfolding drop_space
  drop_space-suffix k [] = ([], refl)
  drop_space-suffix (suc k) (a ∷ s) =
      let (p, e) = drop_space-suffix k s in (a ∷ p, ap (λ t. a ∷ t) e)
  drop_space-suffix zero (a ∷ s) = stop (width (a ∷ s)) (λ k. drop_space-suffix k s)
    where
      stop :
          (n : ℕ)
          → ((k : ℕ) → (p : Text) × (p ++ drop_space width k s ≡ s))
          → (p : Text) × (p ++ elim n [ zero ↦ a ∷ s | suc k ↦ drop_space width k s ] ≡ a ∷ s)
      stop zero ih = ([], refl)
      stop (suc k) ih = let (p, e) = ih k in (a ∷ p, ap (λ t. a ∷ t) e)

-- A beginning of a text with no white space in front has none either.
space_width-prefix : (p q : Text) → space_width (p ++ q) ≡ 0 → space_width p ≡ 0
unfolding space_width
space_width-prefix [] q h = refl
space_width-prefix (a ∷ []) [] h = h
space_width-prefix (a ∷ []) (b ∷ []) h = ground arith
space_width-prefix (a ∷ []) (b ∷ c ∷ q) h = ground arith
space_width-prefix (a ∷ b ∷ []) [] h = h
space_width-prefix (a ∷ b ∷ []) (c ∷ q) h = ground arith
space_width-prefix (a ∷ b ∷ c ∷ p) q h = h

trim_left-IsClean : (s : Text) → space_width (trim_left s) ≡ 0
unfolding trim_left
trim_left-IsClean s = drop_space-IsClean space_width refl 0 s

trim_right-prefix : (s : Text) → (q : Text) × (trim_right s ++ q ≡ s)
unfolding trim_right
trim_right-prefix s =
    let (p, e) = drop_space-suffix space_width_back 0 (reverse s) in
    (reverse p, sym (reverse-append p _) ∙ ap reverse e ∙ reverse-reverse s)

trim_right-trim_right : (s : Text) → trim_right (trim_right s) ≡ trim_right s
unfolding trim_right
trim_right-trim_right s =
    let t = drop_space space_width_back 0 (reverse s) in
    ap (λ (u : Text). reverse (drop_space space_width_back 0 u)) {y = t} (reverse-reverse t)
    ∙ ap reverse {y = t} (
        drop_space_clean space_width_back t
          (drop_space-IsClean space_width_back refl 0 (reverse s)))

-- Trimming from the right leaves no white space in front where there was none.
trim_right-IsClean : (s : Text) → space_width s ≡ 0 → space_width (trim_right s) ≡ 0
trim_right-IsClean s h =
    let (q, e) = trim_right-prefix s in space_width-prefix (trim_right s) q (ap space_width e ∙ h)

pub trim_left_clean : (s : Text) → space_width s ≡ 0 → trim_left s ≡ s
unfolding trim_left
trim_left_clean s h = drop_space_clean space_width s h

pub trim_right_clean : (s : Text) → space_width_back (reverse s) ≡ 0 → trim_right s ≡ s
unfolding trim_right
trim_right_clean s h =
    ap reverse (drop_space_clean space_width_back (reverse s) h) ∙ reverse-reverse s

-- Trimming is idempotent.
pub trim_space-trim_space : (s : Text) → trim_space (trim_space s) ≡ trim_space s
unfolding trim_space
trim_space-trim_space s =
    ap trim_right (
      trim_left_clean (trim_right (trim_left s))
        (trim_right-IsClean (trim_left s) (trim_left-IsClean s)))
    ∙ trim_right-trim_right (trim_left s)

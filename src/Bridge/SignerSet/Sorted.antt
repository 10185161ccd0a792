-- ===== src/Bridge/SignerSet/Sorted.antt =====
-- Sorting the signers: `sort.Strings`.
use mathlib.Core.List.{Permᴰ}
use mathlib.Core.List.Permᴰ
use aegis_link.Common.{◌≡◌, refl, true, false, List, [], ◌∷◌, arith, All, map, Bool-cases, inl, inr}
use aegis_link.Text.{Text}
use aegis_link.Bridge.Attestation.{normalize_signer_address}
use aegis_link.Bridge.SignerSet.{
  SignerSet, normalize_signer_set, text_leb, insert_sorted, sort_strings,
}

-- Each text is at most those that follow.
abbrev pub IsSorted : List Text → Type 0
IsSorted [] = Unit
IsSorted (s ∷ ss) = All (λ t. text_leb s t ≡ true) ss × IsSorted ss

text_leb_total : (s t : Text) → text_leb s t ≡ false → text_leb t s ≡ true
unfolding text_leb
text_leb_total [] t h = absurd (cc h)
text_leb_total (a ∷ s) [] h = refl
text_leb_total (a ∷ s) (b ∷ t) h = ground (arith, text_leb_total s t)

text_leb_trans : (s t u : Text) → text_leb s t ≡ true → text_leb t u ≡ true → text_leb s u ≡ true
unfolding text_leb
text_leb_trans [] t u h k = refl
text_leb_trans (a ∷ s) [] u h k = absurd (cc h)
text_leb_trans (a ∷ s) (b ∷ t) [] h k = absurd (cc k)
text_leb_trans (a ∷ s) (b ∷ t) (c ∷ u) h k = ground (arith, text_leb_trans s t u)

above-All :
    (s t : Text) (ts : List Text)
    → text_leb s t ≡ true
    → All (λ u. text_leb t u ≡ true) ts
    → All (λ u. text_leb s u ≡ true) ts
above-All s t [] h hs = tt
above-All s t (u ∷ ts) h (k, hs) = (text_leb_trans s t u h k, above-All s t ts h hs)

insert_above :
    (s t : Text) (ts : List Text)
    → text_leb t s ≡ true
    → All (λ u. text_leb t u ≡ true) ts
    → All (λ u. text_leb t u ≡ true) (insert_sorted s ts)
unfolding insert_sorted
insert_above s t [] h hs = (h, tt)
insert_above s t (u ∷ ts) h (k, hs) = elim (Bool-cases (text_leb s u)) [
  | inl q ↦ rw q (h, (k, hs))
  | inr q ↦ rw q (k, insert_above s t ts h hs)
]

insert-IsSorted : (s : Text) (ts : List Text) → IsSorted ts → IsSorted (insert_sorted s ts)
unfolding insert_sorted
insert-IsSorted s [] h = (tt, tt)
insert-IsSorted s (t ∷ ts) (hs, h) = elim (Bool-cases (text_leb s t)) [
  | inl q ↦ rw q ((q, above-All s t ts q hs), (hs, h))
  | inr q ↦ rw q (insert_above s t ts (text_leb_total s t q) hs, insert-IsSorted s ts h)
]

sort-IsSorted : (ss : List Text) → IsSorted (sort_strings ss)
unfolding sort_strings
sort-IsSorted [] = tt
sort-IsSorted (s ∷ ss) = insert-IsSorted s (sort_strings ss) (sort-IsSorted ss)

insert-Permᴰ : (s : Text) (ts : List Text) → Permᴰ (insert_sorted s ts) (s ∷ ts)
unfolding insert_sorted
insert-Permᴰ s [] = Permᴰ.refl (s ∷ [])
insert-Permᴰ s (t ∷ ts) = elim (Bool-cases (text_leb s t)) [
  | inl q ↦ rw q (Permᴰ.refl (s ∷ t ∷ ts))
  | inr q ↦ rw q (Permᴰ.trans (Permᴰ.cons refl (insert-Permᴰ s ts)) (Permᴰ.swap refl refl))
]

sort-Permᴰ : (ss : List Text) → Permᴰ (sort_strings ss) ss
unfolding sort_strings
sort-Permᴰ [] = Permᴰ.nil
sort-Permᴰ (s ∷ ss) =
    Permᴰ.trans (insert-Permᴰ s (sort_strings ss)) (Permᴰ.cons refl (sort-Permᴰ ss))

-- A normalised set has the signers that were given, in normal form and in the order of their bytes.
pub normalize_signer_set-IsSorted :
    (set : SignerSet)
    → let signers = (normalize_signer_set set).signers in
      IsSorted signers × Permᴰ signers (map normalize_signer_address set.signers)
unfolding normalize_signer_set
normalize_signer_set-IsSorted set =
    let signers = map normalize_signer_address set.signers in
    (sort-IsSorted signers, sort-Permᴰ signers)

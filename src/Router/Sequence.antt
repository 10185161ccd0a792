-- ===== src/Router/Sequence.antt =====
-- The ids of transfers end in their sequence numbers.
use mathlib.Core.List.{append_assoc}
use aegis_link.Common.{
  ℕ, ◌≡◌, refl, sym, ap, ◌∙◌, none, some, [], ◌∷◌, ◌++◌, arith, nat_beq, Bool-cases, inl, inr,
}
use aegis_link.Text.{Text, lit, trim_space, cut_after}
use aegis_link.Codec.{decimal}
use aegis_link.Codec.Digits.{cut_after-decimal, decimal-inj}
use aegis_link.Router.State.{transfer_id_of, last_part}

cut_after-found : (s t : Text) → (u : Text) × (cut_after 0x2f (s ++ 0x2f ∷ t) ≡ some u)
unfolding cut_after
cut_after-found [] t = (t, refl)
cut_after-found (a ∷ s) t = elim (Bool-cases (nat_beq a 0x2f)) [
  | inl here ↦ rw here (s ++ 0x2f ∷ t, refl)
  | inr later ↦ rw later (cut_after-found s t)
]

last_part_whole : (t : Text) → cut_after 0x2f t ≡ none → last_part t ≡ t
unfolding last_part
last_part_whole [] h = refl
last_part_whole (b ∷ t) h = rw (h, last_part)

last_part-append : (s t : Text) → cut_after 0x2f t ≡ none → last_part (s ++ 0x2f ∷ t) ≡ t
unfolding last_part
last_part-append [] t h = unfold cut_after in last_part_whole t h
last_part-append (a ∷ s) t h =
    let (u, found) = cut_after-found (a ∷ s) t in rw (found, last_part) (last_part-append s t h)

-- The last part of an id is its sequence number.
pub last_part-transfer_id_of :
    (asset : Text) (n : ℕ) → last_part (transfer_id_of asset n) ≡ decimal n
unfolding transfer_id_of decimal
last_part-transfer_id_of asset n =
    ap last_part (sym (append_assoc (lit "ibc/") (trim_space asset) (0x2f ∷ decimal n)))
    ∙ last_part-append (lit "ibc/" ++ trim_space asset) (decimal n)
        (cut_after-decimal 0x2f n (λ d h e. omega arith))

-- Transfers with the same id have the same sequence number, whatever their assets.
pub transfer_id_of-inj : (a b : Text) (m n : ℕ) → transfer_id_of a m ≡ transfer_id_of b n → m ≡ n
transfer_id_of-inj a b m n e =
    decimal-inj m n
      (sym (last_part-transfer_id_of a m) ∙ ap last_part e ∙ last_part-transfer_id_of b n)

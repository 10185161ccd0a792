-- ===== src/Relayer/Route/Sequence.antt =====
-- The sequence number of a packet is that of the router's transfer.
use mathlib.Core.List.{reverse, reverse-append, append_assoc}
use aegis_link.Common.{ℕ, ◌^◌, ◌<◌, ◌≡◌, refl, sym, ap, ◌∙◌, some, [], ◌∷◌, ◌++◌, arith}
use aegis_link.Text.{Text, lit, trim_space, trim_right, space_width, space_width_back}
use aegis_link.Text.Trim.{trim_left_clean, trim_right_clean}
use aegis_link.Codec.{decimal}
use aegis_link.Codec.Trimmed.{EndsInDigit, digits_from-EndsInDigit, digit-width_back}
use aegis_link.Codec.Decimal.{parse_unsigned-decimal}
use aegis_link.Router.State.{transfer_id_of}
use aegis_link.Router.Sequence.{last_part-transfer_id_of}
use aegis_link.Relayer.Route.Envelope.{parse_transfer_sequence}

transfer_id_of-EndsInDigit : (asset : Text) (n : ℕ) → EndsInDigit (transfer_id_of asset n)
unfolding transfer_id_of decimal
transfer_id_of-EndsInDigit asset n =
    let e = digits_from-EndsInDigit n n in
    record {
      front = lit "ibc/" ++ (trim_space asset ++ 0x2f ∷ e.front);
      digit = e.digit;
      split =
          ap (λ t. lit "ibc/" ++ (trim_space asset ++ 0x2f ∷ t)) e.split
          ∙ ap (λ t. lit "ibc/" ++ t)
              (sym (append_assoc (trim_space asset) (0x2f ∷ e.front) (e.digit ∷ [])));
      low = e.low;
      high = e.high;
    }

-- Trimming leaves an id of the router as it is.
trim_space-transfer_id_of :
    (asset : Text) (n : ℕ) → trim_space (transfer_id_of asset n) ≡ transfer_id_of asset n
unfolding trim_space
trim_space-transfer_id_of asset n =
    let id = transfer_id_of asset n in
    let e = transfer_id_of-EndsInDigit asset n in
    let front : space_width id ≡ 0 = unfold transfer_id_of space_width in refl in
    let back : space_width_back (reverse id) ≡ 0 =
      ap (λ t. space_width_back (reverse t)) e.split
      ∙ ap space_width_back (reverse-append e.front (e.digit ∷ []))
      ∙ digit-width_back e.digit (reverse e.front) e.low e.high in
    ap trim_right (trim_left_clean id front) ∙ trim_right_clean id back

-- The relayer reads back the sequence number that the router put at the end of a transfer's id.
pub parse_transfer_sequence-transfer_id_of :
    (asset : Text) (n : ℕ) → n < 2 ^ 64 → parse_transfer_sequence (transfer_id_of asset n) ≡ some n
unfolding parse_transfer_sequence
parse_transfer_sequence-transfer_id_of asset n small =
    rw (trim_space-transfer_id_of asset n)
      (rw (last_part-transfer_id_of asset n) (rw (parse_unsigned-decimal n) (ground arith)))

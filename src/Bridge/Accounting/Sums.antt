-- ===== src/Bridge/Accounting/Sums.antt =====
-- What the accepted claims and the withdrawals add up to, denomination by denomination, and how the
-- loops of `CheckAccountingInvariant` compute it.
use aegis_link.Common.{
  ◌≡◌, ap, ◌∙◌, none, some, List, [], ◌∷◌, ◌++◌, if◌then◌else◌, arith, Bool-cases, inl, inr,
}
use aegis_link.Common.Int.{ℤ, pos, ◌+ℤ◌, ◌-ℤ◌, int_laws}
use aegis_link.Common.Map.{Map, lookup, insert, lookup-insert}
use aegis_link.Text.{Text, text_eq, text_beq, text_beq_iff}
use aegis_link.Registry
use aegis_link.Registry.{Asset, get_asset}
use aegis_link.Bridge.State.{
  ClaimRecord, WithdrawalRecord, claim_status_accepted, bridge_denom_for_asset,
}
use aegis_link.Bridge.Accounting.{amount_of, expect_claims}

-- The amount, if two denominations are the same.
abbrev pub share : Text → Text → ℤ → ℤ
share denom d a = if text_beq denom d then a else pos 0

abbrev pub claim_share : Text → ClaimRecord → ℤ
claim_share d c =
    if text_beq c.status claim_status_accepted then share c.denom d c.amount else pos 0

-- What accepted claims have minted of a denomination.
unfoldable pub claimed : Text → Map Text ClaimRecord → ℤ
claimed d [] = pos 0
claimed d ((key, c) ∷ m) = claim_share d c +ℤ claimed d m

abbrev pub withdrawal_share : Registry.Keeper → Text → WithdrawalRecord → ℤ
withdrawal_share r d w = elim (get_asset r w.asset_id) [
  | none ↦ pos 0
  | some asset ↦ share (bridge_denom_for_asset asset) d w.amount
]

-- What withdrawals have burnt of a denomination.
unfoldable pub withdrawn : Registry.Keeper → Text → List WithdrawalRecord → ℤ
withdrawn r d [] = pos 0
withdrawn r d (w ∷ ws) = withdrawal_share r d w +ℤ withdrawn r d ws

pub amount_of-insert :
    (d e : Text) (v : ℤ) (m : Map Text ℤ)
    → amount_of d (insert e v m) ≡ (if text_beq e d then v else amount_of d m)
amount_of-insert d e v m = ground (arith, lookup-insert e d v m)

pub amount_of-add :
    (d e : Text) (a : ℤ) (m : Map Text ℤ)
    → amount_of d (insert e (amount_of e m +ℤ a) m) ≡ amount_of d m +ℤ share e d a
amount_of-add d e a m = elim (Bool-cases (text_beq e d)) [
  | inl same ↦
      rw amount_of-insert (rw same (ap (λ x. amount_of x m +ℤ a) ((text_beq_iff e d).0 same)))
  | inr other ↦ rw amount_of-insert (rw other (omega int_laws))
]

pub amount_of-sub :
    (d e : Text) (a : ℤ) (m : Map Text ℤ)
    → amount_of d (insert e (amount_of e m -ℤ a) m) ≡ amount_of d m -ℤ share e d a
amount_of-sub d e a m = elim (Bool-cases (text_beq e d)) [
  | inl same ↦
      rw amount_of-insert (rw same (ap (λ x. amount_of x m -ℤ a) ((text_beq_iff e d).0 same)))
  | inr other ↦ rw amount_of-insert (rw other (omega int_laws))
]

-- The first loop adds what the claims have minted.
pub expect_claims-claimed :
    (d : Text) (m : Map Text ℤ) (claims : Map Text ClaimRecord)
    → amount_of d (expect_claims m claims) ≡ amount_of d m +ℤ claimed d claims
unfolding expect_claims claimed
expect_claims-claimed d m [] = omega int_laws
expect_claims-claimed d m ((key, c) ∷ claims) =
    elim (Bool-cases (text_beq c.status claim_status_accepted)) [
      | inl counted ↦ rw counted (
          expect_claims-claimed d (insert c.denom (amount_of c.denom m +ℤ c.amount) m) claims
          ∙ rw amount_of-add (omega int_laws))
      | inr skipped ↦ rw skipped (expect_claims-claimed d m claims ∙ omega int_laws)
    ]

-- A new claim adds its share.
pub claimed-insert :
    (d : Text) (key : Text) (c : ClaimRecord) (claims : Map Text ClaimRecord)
    → lookup key claims ≡ none
    → claimed d (insert key c claims) ≡ claimed d claims +ℤ claim_share d c
unfolding claimed insert lookup
claimed-insert d key c [] fresh = omega int_laws
claimed-insert d key c ((j, old) ∷ claims) fresh = elim (Bool-cases (text_beq j key)) [
  | inl same ↦ absurd (ground arith)
  | inr other ↦
      let fresh' : lookup key claims ≡ none = ground arith in
      rw other (rw (claimed-insert d key c claims fresh') (omega int_laws))
]

-- A new withdrawal adds its share.
pub withdrawn-append :
    (r : Registry.Keeper) (d : Text) (ws : List WithdrawalRecord) (w : WithdrawalRecord)
    → withdrawn r d (ws ++ w ∷ []) ≡ withdrawn r d ws +ℤ withdrawal_share r d w
unfolding withdrawn
withdrawn-append r d [] w = omega int_laws
withdrawn-append r d (v ∷ ws) w = rw (withdrawn-append r d ws w) (omega int_laws)

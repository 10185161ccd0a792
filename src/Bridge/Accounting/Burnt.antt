-- ===== src/Bridge/Accounting/Burnt.antt =====
-- The loop of `CheckAccountingInvariant` over the withdrawals.
use aegis_link.Common.{
  ◌≡◌, refl, ◌∙◌, false, some, List, [], ◌∷◌, arith, inl, inr, Option-cases, All,
}
use mathlib.Core.Path.{subst}
use aegis_link.Common.Int.{ℤ, pos, negsuc, ◌+ℤ◌, ◌-ℤ◌, ◌≤ℤ◌, is_negative, int_laws}
use aegis_link.Common.Map.{Map, insert, insert-Unique, Unique}
use aegis_link.Text.{Text, text_eq, text_beq_iff}
use aegis_link.Registry
use aegis_link.Registry.{Asset, get_asset}
use aegis_link.Bridge.State.{WithdrawalRecord, bridge_denom_for_asset}
use aegis_link.Bridge.Accounting.{amount_of, expect_withdrawals, sound}
use aegis_link.Bridge.Accounting.Sums.{share, withdrawal_share, withdrawn, amount_of-sub}

-- A withdrawal of a registered asset, of an amount that is not negative.
pub record IsBooked (r : Registry.Keeper) (w : WithdrawalRecord) : Type 0 where
  pub asset : Asset
  pub registered : get_asset r w.asset_id ≡ some asset
  pub nonneg : pos 0 ≤ℤ w.amount

pub share_nonneg : (e d : Text) (a : ℤ) → pos 0 ≤ℤ a → pos 0 ≤ℤ share e d a
share_nonneg e d a h = ground arith

pub share_of_asset :
    (r : Registry.Keeper) (d : Text) (w : WithdrawalRecord) (b : IsBooked r w)
    → withdrawal_share r d w ≡ share (bridge_denom_for_asset b.asset) d w.amount
share_of_asset r d w b = rw (b.registered, withdrawal_share)

pub withdrawn_nonneg :
    (r : Registry.Keeper) (d : Text) (ws : List WithdrawalRecord)
    → All (IsBooked r) ws
    → pos 0 ≤ℤ withdrawn r d ws
unfolding withdrawn
withdrawn_nonneg r d [] h = omega arith
withdrawn_nonneg r d (w ∷ ws) (b, bs) =
    let first : pos 0 ≤ℤ withdrawal_share r d w =
      rw (share_of_asset r d w b) (share_nonneg _ d w.amount b.nonneg) in
    omega (int_laws, withdrawn_nonneg r d ws bs)

-- The map that the loop goes on with.
abbrev burn : Map Text ℤ → Asset → WithdrawalRecord → Map Text ℤ
burn m asset w =
    insert (bridge_denom_for_asset asset) (amount_of (bridge_denom_for_asset asset) m -ℤ w.amount) m

expect_withdrawals-step :
    (r : Registry.Keeper) (m m' : Map Text ℤ) (w : WithdrawalRecord) (ws : List WithdrawalRecord)
    → expect_withdrawals r m (w ∷ ws) ≡ sound m'
    → (asset : Asset) × (get_asset r w.asset_id ≡ some asset)
      × (expect_withdrawals r (burn m asset w) ws ≡ sound m')
unfolding expect_withdrawals
expect_withdrawals-step r m m' w ws e = elim (Option-cases (get_asset r w.asset_id)) [
  | inl missing ↦ absurd (ground arith)
  | inr (asset, found) ↦ (asset, found, ground arith)
]

-- If the loop ends well, it has taken away what was withdrawn.
pub expect_withdrawals-sound :
    (r : Registry.Keeper) (m m' : Map Text ℤ) (ws : List WithdrawalRecord)
    → expect_withdrawals r m ws ≡ sound m'
    → (d : Text) → amount_of d m' ≡ amount_of d m -ℤ withdrawn r d ws
unfolding withdrawn
expect_withdrawals-sound r m m' [] e d =
    let same : m ≡ m' = unfold expect_withdrawals in cc e in rw (← same) (omega int_laws)
expect_withdrawals-sound r m m' (w ∷ ws) e d =
    let (asset, found, rest) = expect_withdrawals-step r m m' w ws e in
    expect_withdrawals-sound r (burn m asset w) m' ws rest d
    ∙ rw (found, withdrawal_share) (rw amount_of-sub (omega int_laws))

is_negative-false : (a : ℤ) → pos 0 ≤ℤ a → is_negative a ≡ false
is_negative-false (pos n) h = refl
is_negative-false (negsuc n) h = absurd (omega arith)

pub share_self : (d : Text) (a : ℤ) → share d d a ≡ a
share_self d a = rw ((text_beq_iff d d).1 refl)

module _ (r : Registry.Keeper) (m : Map Text ℤ) (w : WithdrawalRecord) (ws : List WithdrawalRecord)
    (b : IsBooked r w) (bs : All (IsBooked r) ws)
    (enough : (d : Text) → withdrawn r d (w ∷ ws) ≤ℤ amount_of d m) where
  -- What the first withdrawal and the others took is there.
  both_enough :
      (d : Text)
      → share (bridge_denom_for_asset b.asset) d w.amount +ℤ withdrawn r d ws ≤ℤ amount_of d m
  unfolding withdrawn
  both_enough d =
      subst (λ (x : ℤ). x +ℤ withdrawn r d ws ≤ℤ amount_of d m) (share_of_asset r d w b) (enough d)

  next_enough : (d : Text) → withdrawn r d ws ≤ℤ amount_of d (burn m b.asset w)
  next_enough d = rw amount_of-sub (omega (int_laws, both_enough d))

  not_negative : is_negative (amount_of (bridge_denom_for_asset b.asset) m -ℤ w.amount) ≡ false
  not_negative =
      let d = bridge_denom_for_asset b.asset in
      let both : w.amount +ℤ withdrawn r d ws ≤ℤ amount_of d m =
        subst (λ (x : ℤ). x +ℤ withdrawn r d ws ≤ℤ amount_of d m) (share_self d w.amount)
          (both_enough d) in
      let left : pos 0 ≤ℤ amount_of d m -ℤ w.amount =
        omega (int_laws, withdrawn_nonneg r d ws bs) in
      is_negative-false _ left

-- The loop ends well if all withdrawals are booked and no more was withdrawn than is there.
pub expect_withdrawals_complete :
    (r : Registry.Keeper) (m : Map Text ℤ) (ws : List WithdrawalRecord)
    → All (IsBooked r) ws
    → ((d : Text) → withdrawn r d ws ≤ℤ amount_of d m)
    → (m' : Map Text ℤ) × (expect_withdrawals r m ws ≡ sound m')
unfolding expect_withdrawals
expect_withdrawals_complete r m [] bs enough = (m, refl)
expect_withdrawals_complete r m (w ∷ ws) (b, bs) enough =
    let (m', e) =
      expect_withdrawals_complete r (burn m b.asset w) ws bs (next_enough r m w ws b bs enough) in
    (m', ground (arith, not_negative r m w ws b bs enough))

pub expect_withdrawals-Unique :
    (r : Registry.Keeper) (m m' : Map Text ℤ) (ws : List WithdrawalRecord)
    → expect_withdrawals r m ws ≡ sound m'
    → Unique m
    → Unique m'
expect_withdrawals-Unique r m m' [] e u =
    let same : m ≡ m' = unfold expect_withdrawals in cc e in subst (λ x. Unique x) same u
expect_withdrawals-Unique r m m' (w ∷ ws) e u =
    let (asset, found, rest) = expect_withdrawals-step r m m' w ws e in
    expect_withdrawals-Unique r (burn m asset w) m' ws rest
      (insert-Unique (bridge_denom_for_asset asset) _ m u)

-- ===== src/App/Settle/Debits.antt =====
-- The debit of a withdrawal by chain/aegislink/app/app.go, and what undoes the withdrawal where it
-- fails.
use mathlib.Core.Path.{subst}
use aegis_link.Common.{
  ◌≡◌, refl, sym, ap, ◌∙◌, Option, none, some, List, [], ◌∷◌, ◌++◌, arith, Bool-cases, Option-cases,
  inl, inr, ◌⊎◌, if◌then◌else◌,
}
use aegis_link.Common.Int.{ℤ, pos, ◌-ℤ◌, ◌≤ℤ◌, int_laws}
use aegis_link.Common.Map.{Map, lookup, insert, lookup-insert}
use aegis_link.Text.{Text, text_eq, text_beq, text_beq_iff, trim_space}
use aegis_link.Errors.{Error}
use aegis_link.Limits.{clone_big_int}
use aegis_link.Registry.{Asset, get_asset}
use aegis_link.Bank
use aegis_link.Bank.{balance_at, balance_of}
use aegis_link.Bank.Balances.{moved}
use aegis_link.Bank.Wallets.{debit-cases}
use aegis_link.Bridge.State as BridgeState
use aegis_link.Bridge.State.{WithdrawalRecord, bridge_denom_for_asset, new_withdrawal_record}
use aegis_link.Bridge.Accounting.{amount_of, amount_or_zero, burn_representation}
use aegis_link.Bridge.Keeper.Cases.{spent}
use aegis_link.App.{App}
use aegis_link.App.Settle.{Withdrew, Before, snapshots, rollback, rolled_back, debit_withdrawal}
use aegis_link.App.Settle.Rollback.{IsSound, restored, rollback-restored}
use aegis_link.App.Settle.Credits.{balance_of-same, rolled_back-cases, same_keepers}

-- A withdrawal that is refused or undone: at most the use of its rate limit is counted.
pub record IsRefused (a : App) (asset_id : Text) (amount : Option ℤ) (p : Withdrew) : Type 0 where
  pub error : Error
  pub errors : List Error
  pub fails : p.2 ≡ error ∷ errors
  pub no_record : p.1 ≡ none
  pub bridge :
      (p.0.bridge_keeper ≡ a.bridge_keeper)
      ⊎ (p.0.bridge_keeper ≡ spent a.bridge_keeper asset_id (clone_big_int amount))
  pub wallets : (x y : Text) → balance_of p.0.bank_keeper x y ≡ balance_of a.bank_keeper x y

-- A withdrawal that is paid: the owner's balance covers it, and goes down with the supply by its
-- amount.
pub record IsPaid (a : App) (owner asset_id : Text) (p : Withdrew) : Type 0 where
  pub asset : Asset
  pub registered : get_asset a.bridge_keeper.registry_keeper asset_id ≡ some asset
  pub withdrawal : WithdrawalRecord
  pub states : p.1 ≡ some withdrawal
  pub succeeds : p.2 ≡ []
  pub positive : pos 1 ≤ℤ withdrawal.amount
  pub covered : withdrawal.amount ≤ℤ balance_of a.bank_keeper owner asset.denom
  pub recorded : p.0.bridge_keeper.withdrawals ≡ a.bridge_keeper.withdrawals ++ withdrawal ∷ []
  pub supply :
      (d : Text)
      → amount_of d p.0.bridge_keeper.supply_by_denom
        ≡ amount_of d a.bridge_keeper.supply_by_denom
          -ℤ (if text_beq (bridge_denom_for_asset asset) d then withdrawal.amount else pos 0)
  pub wallets :
      (x y : Text)
      → balance_of p.0.bank_keeper x y
        ≡ balance_of a.bank_keeper x y
          -ℤ moved
              (trim_space owner)
              (trim_space asset.denom)
              withdrawal.amount
              (trim_space x)
              (trim_space y)

pub amount_of-burn :
    (supply supply' : Map Text ℤ) (denom : Text) (v : ℤ)
    → burn_representation supply denom v ≡ some supply'
    → (d : Text)
    → amount_of d supply' ≡ amount_of d supply -ℤ (if text_beq denom d then v else pos 0)
unfolding burn_representation
amount_of-burn supply supply' denom v burnt d = elim (Option-cases (lookup denom supply)) [
  | inl missing ↦ absurd (ground arith)
  | inr (current, found) ↦
      let shape : insert denom (current -ℤ v) supply ≡ supply' = ground arith in
      ap (amount_of d) (sym shape)
      ∙ ap amount_or_zero (lookup-insert denom d (current -ℤ v) supply)
      ∙ elim (Bool-cases (text_beq denom d)) [
        | inl same ↦
            let denom_is_d : denom ≡ d = (text_beq_iff denom d).0 same in
            rw same (
              ap (λ t. t -ℤ v)
                (ap amount_or_zero (sym found) ∙ ap (λ t. amount_of t supply) denom_is_d))
        | inr other ↦ rw other (omega int_laws)
      ]
]

module _ (flush_error : Option Error) (before : Before) (a : App) (owner asset_id : Text)
    (w : WithdrawalRecord) (asset : Asset)
    (found : get_asset a.bridge_keeper.registry_keeper asset_id ≡ some asset) where
  debit_withdrawal-none :
      let (bank, failed) = Bank.debit a.bank_keeper owner asset.denom (some w.amount) in
      failed ≡ none
      → debit_withdrawal flush_error before a owner asset_id w
        ≡ (record a { bank_keeper = bank }, some w, [])
  unfolding debit_withdrawal
  debit_withdrawal-none e = rw (found, debit_withdrawal) (rw (e, debit_withdrawal) refl)

  debit_withdrawal-some :
      (e : Error)
      → let (bank, failed) = Bank.debit a.bank_keeper owner asset.denom (some w.amount) in
        failed ≡ some e
        → let (undone, errors) =
            rolled_back flush_error
              (e ∷ [])
              (rollback flush_error (record a { bank_keeper = bank }) before) in
          debit_withdrawal flush_error before a owner asset_id w ≡ (undone, none, errors)
  unfolding debit_withdrawal
  debit_withdrawal-some e failed = rw (found, debit_withdrawal) (rw (failed, debit_withdrawal) refl)

-- From the debit on, for a bridge with the registry and the pauses of before.
pub debit_withdrawal-cases :
    (flush_error : Option Error) (a : App) (k : BridgeState.Keeper) (owner asset_id : Text)
    (amount : Option ℤ) (w : WithdrawalRecord) (asset : Asset)
    → IsSound a
    → get_asset k.registry_keeper asset_id ≡ some asset
    → k.registry_keeper ≡ a.bridge_keeper.registry_keeper
    → k.pauser_keeper ≡ a.bridge_keeper.pauser_keeper
    → let done =
        debit_withdrawal flush_error
          (snapshots a)
          (record a { bridge_keeper = k })
          owner
          asset_id
          w in
      IsRefused a asset_id amount done
      ⊎ ((pos 1 ≤ℤ w.amount)
          × (w.amount ≤ℤ balance_of a.bank_keeper owner asset.denom)
          × ((m : Bank.Keeper) × (done
                ≡ (record a { bridge_keeper = k; bank_keeper = m }, some w, []))
              × ((x y : Text)
                  → balance_of m x y
                    ≡ balance_of a.bank_keeper x y
                      -ℤ moved
                          (trim_space owner)
                          (trim_space asset.denom)
                          w.amount
                          (trim_space x)
                          (trim_space y))))
debit_withdrawal-cases flush_error a k owner asset_id amount w asset sound found same_registry
      same_pauser =
    let a₁ : App = record a { bridge_keeper = k } in
    let before = snapshots a in
    let debited = Bank.debit a.bank_keeper owner asset.denom (some w.amount) in
    elim (Option-cases debited.1) [
      | inr (e, failed) ↦
          let a₂ : App = record a₁ { bank_keeper = debited.0 } in
          let (m, undoes, same) = rollback-restored flush_error a₂ a sound in
          let (errors, joined) = rolled_back-cases flush_error e (restored a₂ a m) flush_error in
          let ends : debit_withdrawal flush_error before a₁ owner asset_id w
              ≡ (restored a₂ a m, none, e ∷ errors) =
            debit_withdrawal-some flush_error before a₁ owner asset_id w asset found e failed
            ∙ ap (λ (r : App × List Error). (r.0, none, r.1))
                (ap (rolled_back flush_error (e ∷ [])) undoes ∙ joined) in
          inl (
            subst (IsRefused a asset_id amount) (sym ends) (record {
              error = e;
              errors = errors;
              fails = refl;
              no_record = refl;
              bridge = inl (same_keepers a.bridge_keeper k same_registry same_pauser);
              wallets = balance_of-same a.bank_keeper _ same;
            }))
      | inl fine ↦
          let ends =
            debit_withdrawal-none flush_error before a₁ owner asset_id w asset found fine in
          elim (debit-cases a.bank_keeper owner asset.denom (some w.amount)) [
            | inl (fails, still) ↦ absurd (fails fine)
            | inr (inl (v, arguments, short, still, fails)) ↦ absurd (ground (arith, fails, fine))
            | inr (inr (v, arguments, covered, writes, moves)) ↦
                let is_v : w.amount ≡ v = ground (arith, arguments.known) in
                inr (
                  subst (λ z. pos 1 ≤ℤ z) (sym is_v) arguments.positive,
                  subst (λ z. z ≤ℤ balance_of a.bank_keeper owner asset.denom) (sym is_v) covered,
                  (
                    debited.0,
                    ends,
                    λ x y.
                        moves x y
                        ∙ ap
                            (λ z.
                              balance_of a.bank_keeper x y
                              -ℤ moved (trim_space owner) (trim_space asset.denom) z (trim_space x)
                                  (trim_space y))
                            (sym is_v),
                  ),
                )
          ]
    ]

-- ===== src/App/Settle.antt =====
-- Claims and withdrawals with their wallets, and what undoes them: chain/aegislink/app/app.go.
-- Errors that Go joins are a list, which is empty where Go returns nil.
pub mod Rollback
pub mod Credits
pub mod Debits
pub mod Deposits
pub mod Withdrawals
use aegis_link.Common.{ℕ, Bool, Option, none, some, List, [], ◌∷◌, ◌++◌}
use aegis_link.Common.Int.{ℤ}
use aegis_link.Text.{Text}
use aegis_link.Errors.{Error, Outcome, Result, ok, err, unknown_asset}
use aegis_link.Crypto.{Crypto}
use aegis_link.Limits
use aegis_link.Limits.Snapshot as LimitsSnapshot
use aegis_link.Registry.{Asset, get_asset}
use aegis_link.Bank
use aegis_link.Bank.{BalanceRecord}
use aegis_link.Bank.Snapshot as BankSnapshot
use aegis_link.Bridge.Claim.{DepositClaim}
use aegis_link.Bridge.Attestation.{Attestation}
use aegis_link.Bridge.State as BridgeState
use aegis_link.Bridge.State.{ClaimResult, WithdrawalRecord}
use aegis_link.Bridge.Keeper
use aegis_link.Bridge.Keeper.{Claimed}
use aegis_link.Bridge.Snapshot as BridgeSnapshot
use aegis_link.App.{App, normalize_address}

-- The three snapshots that are taken before.
pub record Before : Type 0 where
  pub bridge_state : BridgeSnapshot.StateSnapshot
  pub bank_state : List BalanceRecord
  pub limits_state : LimitsSnapshot.StateSnapshot

unfoldable pub snapshots : App → Before
snapshots a = record {
  bridge_state = BridgeSnapshot.export_state a.bridge_keeper;
  bank_state = BankSnapshot.export_state a.bank_keeper;
  limits_state = LimitsSnapshot.export_state a.bridge_keeper.limits_keeper;
}

abbrev pub no_result : ClaimResult
no_result = record { status = []; message_id = []; denom = []; amount = none }

-- The limits that the bridge keeper shares.
abbrev pub with_limits : App → Limits.Keeper → App
with_limits a limits =
    let b = a.bridge_keeper in record a { bridge_keeper = record b { limits_keeper = limits } }

-- The application, the result and the errors of `SubmitDepositClaim`.
abbrev pub Submitted : Type 0
Submitted = App × ClaimResult × List Error

-- Those of `ExecuteWithdrawal`, where `none` is the empty record.
abbrev pub Withdrew : Type 0
Withdrew = App × Option WithdrawalRecord × List Error

-- `flush_error` is the error of writing the wallets at the end of a rollback; the other stores have
-- none.
module _ (flush_error : Option Error) where
  -- What follows the three imports of a rollback, each unless it fails.
  abbrev pub limits_imported : App → Outcome Limits.Keeper → Outcome App
  limits_imported a (limits, some e) = (with_limits a limits, some e)
  limits_imported a (limits, none) = (with_limits a limits, flush_error)

  abbrev pub bank_imported : App → Before → Outcome Bank.Keeper → Outcome App
  bank_imported a s (bank, some e) = (record a { bank_keeper = bank }, some e)
  bank_imported a s (bank, none) =
      limits_imported (record a { bank_keeper = bank })
        (LimitsSnapshot.import_state a.bridge_keeper.limits_keeper s.limits_state)

  abbrev pub bridge_imported : App → Before → Outcome BridgeState.Keeper → Outcome App
  bridge_imported a s (bridge, some e) = (record a { bridge_keeper = bridge }, some e)
  bridge_imported a s (bridge, none) =
      bank_imported (record a { bridge_keeper = bridge }) s
        (Bank.import_state a.bank_keeper s.bank_state)

  -- `rollbackDepositClaimState` and `rollbackWithdrawalState`
  unfoldable pub rollback : App → Before → Outcome App
  rollback a s = bridge_imported a s (BridgeSnapshot.import_state a.bridge_keeper s.bridge_state)

  -- The errors of a failure and of the rollback after it.
  abbrev pub rolled_back : List Error → Outcome App → App × List Error
  rolled_back errors (a, none) = (a, errors)
  rolled_back errors (a, some e) = (a, errors ++ e ∷ [])

  -- From the credit on.
  unfoldable pub credit_claim : Before → App → Text → ClaimResult → Submitted
  unfolding rollback
  credit_claim before a recipient result =
      let (bank, failed) = Bank.credit a.bank_keeper recipient result.denom result.amount in
      let credited = record a { bank_keeper = bank } in
      elim failed [
        | none ↦ (credited, result, [])
        | some e ↦
            let (undone, errors) = rolled_back (e ∷ []) (rollback credited before) in
            (undone, no_result, errors)
      ]

  abbrev pub claim_executed : Before → App → Text → Claimed → Submitted
  claim_executed before a recipient (bridge, result, some e) =
      (record a { bridge_keeper = bridge }, result, e ∷ [])
  claim_executed before a recipient (bridge, result, none) =
      credit_claim before (record a { bridge_keeper = bridge }) recipient result

  -- From the debit on.
  unfoldable pub debit_withdrawal : Before → App → Text → Text → WithdrawalRecord → Withdrew
  unfolding rollback
  debit_withdrawal before a owner asset_id withdrawal =
      elim (get_asset a.bridge_keeper.registry_keeper asset_id) [
        | none ↦
            let (undone, failed) = rollback a before in
            elim failed [
              | some e ↦ (undone, none, e ∷ [])
              | none ↦ (undone, none, unknown_asset ∷ [])
            ]
        | some asset ↦
            let (bank, failed) =
              Bank.debit a.bank_keeper owner asset.denom (some withdrawal.amount) in
            let debited = record a { bank_keeper = bank } in
            elim failed [
              | none ↦ (debited, some withdrawal, [])
              | some e ↦
                  let (undone, errors) = rolled_back (e ∷ []) (rollback debited before) in
                  (undone, none, errors)
            ]
      ]

  abbrev pub withdrawal_executed :
      Before → App → Text → Text → BridgeState.Keeper × Result WithdrawalRecord → Withdrew
  withdrawal_executed before a owner asset_id (bridge, err e) =
      (record a { bridge_keeper = bridge }, none, e ∷ [])
  withdrawal_executed before a owner asset_id (bridge, ok withdrawal) =
      debit_withdrawal before (record a { bridge_keeper = bridge }) owner asset_id withdrawal

  -- The hash functions, and what the Cosmos SDK accepts as an address.
  module _ (crypto : Crypto) (is_bech32 : Text → Bool) where
    -- `submitDepositClaimLocked`
    unfoldable pub submit_deposit_claim : App → DepositClaim → Attestation → Submitted
    unfolding credit_claim snapshots normalize_address
    submit_deposit_claim a claim attestation = elim (normalize_address is_bech32 claim.recipient) [
      | err e ↦ (a, no_result, e ∷ [])
      | ok recipient ↦ claim_executed (snapshots a) a recipient (
          Keeper.execute_deposit_claim crypto a.bridge_keeper
            (record claim { recipient = recipient }) attestation)
    ]

    unfoldable pub execute_withdrawal : App → Text → Text → Option ℤ → Text → ℕ → List ℕ → Withdrew
    unfolding debit_withdrawal snapshots normalize_address
    execute_withdrawal a owner_address asset_id amount recipient deadline signature =
        elim (normalize_address is_bech32 owner_address) [
          | err e ↦ (a, none, e ∷ [])
          | ok owner ↦ withdrawal_executed (snapshots a) a owner asset_id (
              Keeper.execute_withdrawal crypto a.bridge_keeper asset_id amount recipient deadline
                signature)
        ]

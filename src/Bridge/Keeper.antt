-- ===== src/Bridge/Keeper.antt =====
-- The operations of the bridge keeper, x/bridge/keeper/keeper.go. Writing the state to the store
-- (`persist`) returns no error there and changes nothing in memory.
pub mod Books
pub mod Cases
pub mod Replay
pub mod Invariant
pub mod Withdraw
use aegis_link.Common.{
  ℕ, Bool, true, false, ◌&&◌, ◌||◌, not, Option, none, some, List, [], ◌∷◌, ◌++◌, if◌then◌else◌,
  ltb, leb, is_empty, nat_beq,
}
use aegis_link.Common.Int.{ℤ, pos}
use aegis_link.Common.Map.{Map, lookup}
use aegis_link.Text.{Text, text_eq, is_blank}
use aegis_link.Errors.{
  Error, Result, ok, err, duplicate_claim, unknown_asset, asset_disabled, asset_paused,
  insufficient_supply, invalid_withdrawal,
}
use aegis_link.Crypto.{Crypto}
use aegis_link.Limits
use aegis_link.Limits.{clone_big_int, not_positive}
use aegis_link.Pauser
use aegis_link.Registry.{Asset, get_asset}
use aegis_link.Bridge.Claim.{DepositClaim, deposit_validate_basic, replay_key}
use aegis_link.Bridge.Attestation.{Attestation}
use aegis_link.Bridge.State.{
  Keeper, ClaimResult, WithdrawalRecord, claim_status_rejected, bridge_denom_for_asset,
  source_asset_address_for_withdrawal, is_zero_hex_address, increment, ensure_circuit_healthy,
  new_withdrawal_record,
}
use aegis_link.Bridge.Verify.{verify_deposit_claim}
use aegis_link.Bridge.Accounting.{
  accept_deposit_claim, check_accounting_invariant, burn_representation, amount_of,
}

-- The keeper, the result and the error that `ExecuteDepositClaim` leaves and returns.
abbrev pub Claimed : Type 0
Claimed = Keeper × ClaimResult × Option Error

abbrev pub rejection : Text → ClaimResult
rejection message_id = record {
  status = claim_status_rejected;
  message_id = message_id;
  denom = [];
  amount = none;
}

-- `k.rejectedClaims++` and a result of status "rejected".
abbrev pub reject : Keeper → Text → Error → Claimed
reject k message_id e =
    (record k { rejected_claims = increment k.rejected_claims }, rejection message_id, some e)

-- The tests of the asset that a deposit and a withdrawal share: it is known, enabled and not
-- paused.
unfoldable pub usable_asset : Keeper → Text → Result Asset
usable_asset k asset_id = elim (get_asset k.registry_keeper asset_id) [
  | none ↦ err unknown_asset
  | some asset ↦
      if not asset.enabled
      then err asset_disabled
      else elim (Pauser.assert_not_paused k.pauser_keeper asset_id) [
        | some e ↦ err asset_paused
        | none ↦ ok asset
      ]
]

-- `CheckTransferAtHeight`, then `RecordTransferAtHeight`, at the keeper's height.
unfoldable pub spend_limit : Keeper → Text → Option ℤ → Result Keeper
spend_limit k asset_id amount =
    elim (Limits.check_transfer_at_height k.limits_keeper asset_id amount k.current_height) [
      | some e ↦ err e
      | none ↦
          let (limits, failed) =
            Limits.record_transfer_at_height k.limits_keeper asset_id amount k.current_height in
          elim failed [ some e ↦ err e | none ↦ ok (record k { limits_keeper = limits }) ]
    ]

-- The end of `ExecuteDepositClaim`: what `CheckAccountingInvariant` says of the claim accepted.
unfoldable pub settle_claim : Text → ClaimResult → Keeper × Option Error → Claimed
settle_claim message_id result (k, none) = (k, result, none)
settle_claim message_id result (k, some e) = reject k message_id e

-- From the asset on, for a claim that has been verified.
unfoldable pub claim_asset : Keeper → Text → DepositClaim → Claimed
unfolding usable_asset spend_limit settle_claim
claim_asset k claim_key claim =
    let id = claim.identity.message_id in
    elim (usable_asset k claim.asset_id) [
      | err e ↦ reject k id e
      | ok asset ↦ elim (spend_limit k claim.asset_id claim.amount) [
        | err e ↦ reject k id e
        | ok k' ↦
            let (accepted, result) = accept_deposit_claim k' claim_key claim asset in
            settle_claim id result (check_accounting_invariant accepted)
      ]
    ]

module _ (crypto : Crypto) where
  unfoldable pub execute_deposit_claim : Keeper → DepositClaim → Attestation → Claimed
  unfolding claim_asset
  execute_deposit_claim k claim attestation =
      let id = claim.identity.message_id in
      let key = replay_key crypto claim.identity in
      elim (ensure_circuit_healthy k) [
        | some e ↦ reject k id e
        | none ↦ elim (deposit_validate_basic crypto claim) [
          | some e ↦ reject k [] e
          | none ↦ elim (lookup key k.processed_claims) [
            | some processed ↦ reject k id duplicate_claim
            | none ↦ elim (verify_deposit_claim crypto k claim attestation) [
              | some e ↦ reject k id e
              | none ↦ claim_asset k key claim
            ]
          ]
        ]
      ]

abbrev invalid_if : Bool → Option Error → Option Error
invalid_if c rest = if c then some invalid_withdrawal else rest

-- The tests of the arguments of `ExecuteWithdrawal`.
unfoldable pub withdrawal_arguments : Text → Option ℤ → Text → ℕ → List ℕ → Option Error
withdrawal_arguments asset_id amount recipient deadline signature =
    invalid_if (not_positive amount) (
      invalid_if (is_blank asset_id) (
        invalid_if (is_blank recipient || is_zero_hex_address recipient)
          (invalid_if (nat_beq deadline 0) (invalid_if (is_empty signature) none))))

-- The end of `ExecuteWithdrawal`.
unfoldable pub settle_withdrawal :
    WithdrawalRecord → Keeper × Option Error → Keeper × Result WithdrawalRecord
settle_withdrawal w (k, none) = (k, ok w)
settle_withdrawal w (k, some e) = (k, err e)

-- `!ok || currentSupply.Cmp(amount) < 0` is the test of `burnRepresentation`, which runs after the
-- nonce has gone up.
unfoldable pub withdraw_supply :
    Keeper → Option (Map Text ℤ) → WithdrawalRecord → Keeper × Result WithdrawalRecord
unfolding settle_withdrawal
withdraw_supply k none w = (k, err insufficient_supply)
withdraw_supply k (some supply) w = settle_withdrawal w (
    check_accounting_invariant (record k {
      next_withdrawal_nonce = increment k.next_withdrawal_nonce;
      supply_by_denom = supply;
      withdrawals = k.withdrawals ++ w ∷ [];
    }))

module _ (crypto : Crypto) where
  -- From the asset on, for arguments that have been tested.
  unfoldable pub withdraw_asset :
      Keeper → Text → ℤ → Text → ℕ → List ℕ → Keeper × Result WithdrawalRecord
  unfolding usable_asset spend_limit withdraw_supply
  withdraw_asset k asset_id amount recipient deadline signature = elim (usable_asset k asset_id) [
    | err e ↦ (k, err e)
    | ok asset ↦ elim (spend_limit k asset_id (some amount)) [
      | err e ↦ (k, err e)
      | ok k' ↦
          withdraw_supply k'
            (burn_representation k'.supply_by_denom (bridge_denom_for_asset asset) amount)
            (new_withdrawal_record crypto k' asset_id (source_asset_address_for_withdrawal asset)
              amount recipient deadline signature)
    ]
  ]

  unfoldable pub execute_withdrawal :
      Keeper → Text → Option ℤ → Text → ℕ → List ℕ → Keeper × Result WithdrawalRecord
  unfolding withdrawal_arguments withdraw_asset
  execute_withdrawal k asset_id amount recipient deadline signature =
      elim (ensure_circuit_healthy k) [
        | some e ↦ (k, err e)
        | none ↦ elim (withdrawal_arguments asset_id amount recipient deadline signature) [
          | some e ↦ (k, err e)
          | none ↦ withdraw_asset k asset_id (clone_big_int amount) recipient deadline signature
        ]
      ]

unfoldable pub supply_for_denom : Keeper → Text → ℤ
supply_for_denom k denom = amount_of denom k.supply_by_denom

-- The loop of `Withdrawals`, over heights from the first to the last.
unfoldable pub withdrawals_between : ℕ → ℕ → List WithdrawalRecord → List WithdrawalRecord
withdrawals_between from_height to_height [] = []
withdrawals_between from_height to_height (w ∷ ws) =
    let rest = withdrawals_between from_height to_height ws in
    if ltb w.block_height from_height || ltb to_height w.block_height then rest else w ∷ rest

unfoldable pub withdrawals : Keeper → ℕ → ℕ → List WithdrawalRecord
unfolding withdrawals_between
withdrawals k from_height to_height =
    if ltb to_height from_height
    then []
    else withdrawals_between from_height to_height k.withdrawals

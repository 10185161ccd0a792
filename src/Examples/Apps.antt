-- ===== src/Examples/Apps.antt =====
-- The small chain as an application, with one wallet.
use aegis_link.Common.{
  ℕ, ◌≡◌, refl, sym, ap, ◌∙◌, inl, inr, true, false, Bool, Option, none, some, List, [], ◌∷◌,
}
use aegis_link.Common.Int.{ℤ, pos}
use aegis_link.Text.{Text, lit}
use aegis_link.Errors.{hook_failed}
use aegis_link.Limits
use aegis_link.Limits.Snapshot.Stored as LimitsStored
use aegis_link.Pauser
use aegis_link.Bridge.State as BridgeState
use aegis_link.Bridge.Snapshot.Roundtrip as BridgeRoundtrip
use aegis_link.Router.State as RouterState
use aegis_link.App.{App}
use aegis_link.App.Settle.{submit_deposit_claim}
use aegis_link.App.Block.{advance_block}
use aegis_link.Examples.Data.{plain_crypto, chain, claim, attestation}

abbrev app : App
app = record {
  bank_keeper = record {
    balances = (lit "cosmos1bob", (lit "ueth", pos 5) ∷ []) ∷ [];
    persist_error = none;
  };
  bridge_keeper = chain;
  ibc_router_keeper = RouterState.new_keeper;
  authorities = lit "gov" ∷ [];
  applied = [];
  pending_deposit_claims =
      (record { claim = claim; attestation = attestation; enqueued_at_height = 0 }) ∷ [];
}

-- The same, with wallets that cannot be written.
abbrev failing : App
failing =
    let bank = app.bank_keeper in
    record app { bank_keeper = record bank { persist_error = some hook_failed } }

-- The queued claim is applied: the block counts it.
one_applied : (advance_block plain_crypto (λ t. true) none app).1.applied_queued_claims ≡ 1
unfolding advance_block aegis_link.Bridge.Keeper.execute_deposit_claim
    aegis_link.Bridge.State.ensure_circuit_healthy aegis_link.Bridge.State.new_keeper
    aegis_link.Bridge.Claim.deposit_validate_basic aegis_link.Text.text_beq
    aegis_link.Bridge.Claim.identity_validate_basic aegis_link.Text.trim_space
    aegis_link.Bridge.Claim.replay_key aegis_link.Codec.hex_encode
    aegis_link.Bridge.Claim.canonical_identity_bytes aegis_link.Bridge.Claim.write_canonical_string
    aegis_link.Bridge.Claim.canonical_replay_source_asset_kind aegis_link.Codec.put_uint64
    aegis_link.Common.Map.lookup aegis_link.Bridge.Verify.verify_deposit_claim
    aegis_link.Bridge.Attestation.validate_basic aegis_link.Bridge.Claim.claim_digest
    aegis_link.Bridge.Claim.canonical_claim_bytes aegis_link.Bridge.Accounting.accept_deposit_claim
    aegis_link.Bridge.Accounting.accounting_fault
    aegis_link.Bridge.Accounting.check_accounting_invariant
    aegis_link.Bridge.Accounting.expect_claims aegis_link.Bridge.Accounting.expect_withdrawals
    aegis_link.Bridge.Accounting.match_remaining aegis_link.Bridge.Accounting.match_supply
    aegis_link.Bridge.Accounting.mint_representation aegis_link.Bridge.Attestation.encoded_field
    aegis_link.Bridge.Attestation.is_seen aegis_link.Bridge.Attestation.join_fields
    aegis_link.Bridge.Attestation.normalize_signer_address
    aegis_link.Bridge.Attestation.signer_address_from_public_key
    aegis_link.Bridge.Attestation.signing_digest aegis_link.Bridge.Attestation.signing_fields
    aegis_link.Bridge.Attestation.validate_envelope aegis_link.Bridge.Attestation.validate_proofs
    aegis_link.Bridge.Attestation.validate_signers aegis_link.Bridge.Attestation.verify_proof
    aegis_link.Bridge.Attestation.verify_recovered aegis_link.Bridge.Claim.write_canonical_big_int
    aegis_link.Bridge.Keeper.claim_asset aegis_link.Bridge.Keeper.settle_claim
    aegis_link.Bridge.Keeper.spend_limit aegis_link.Bridge.Keeper.usable_asset
    aegis_link.Bridge.SignerSet.insert_sorted aegis_link.Bridge.SignerSet.is_active
    aegis_link.Bridge.SignerSet.normalize_signer_set aegis_link.Bridge.SignerSet.select_active
    aegis_link.Bridge.SignerSet.sort_strings aegis_link.Bridge.SignerSet.text_leb
    aegis_link.Bridge.State.bridge_denom_for_asset aegis_link.Bridge.State.trip_circuit
    aegis_link.Bridge.Verify.active_signer_set aegis_link.Bridge.Verify.count_verified
    aegis_link.Codec.decimal aegis_link.Codec.digits_from aegis_link.Codec.int_decimal
    aegis_link.Codec.put_uvarint aegis_link.Common.Int.◌+ℤ◌ aegis_link.Common.Int.◌-ℤ◌
    aegis_link.Common.Map.erase aegis_link.Common.Map.insert aegis_link.Limits.active_usage
    aegis_link.Limits.check_transfer_at_height aegis_link.Limits.record_transfer_at_height
    aegis_link.Limits.recorded_usage aegis_link.Pauser.assert_not_paused aegis_link.Pauser.is_paused
    aegis_link.Text.drop_space aegis_link.Text.is_space₁ aegis_link.Text.is_space₂
    aegis_link.Text.is_space₃ aegis_link.Text.space_width aegis_link.Text.space_width_back
    aegis_link.Text.to_lower aegis_link.Text.trim_left aegis_link.Text.trim_right
    aegis_link.Registry.register_asset aegis_link.Registry.validate_basic
    aegis_link.Registry.canonical_asset aegis_link.Registry.derive_asset_metadata
    aegis_link.Registry.derive_destination_denom aegis_link.Registry.asset_prefix_from_asset_id
    aegis_link.Registry.normalized_symbol aegis_link.Registry.strip_marks
    aegis_link.Registry.ensure_destination_denom_available aegis_link.Registry.new_keeper
    aegis_link.Limits.set_limit aegis_link.Limits.limit_validate_basic aegis_link.Limits.new_keeper
    aegis_link.Pauser.new_keeper aegis_link.Text.cut_before
    aegis_link.Bridge.State.set_current_height aegis_link.Bank.credit aegis_link.Bank.credit_at
    aegis_link.Bank.arguments aegis_link.Bank.normalize_denom aegis_link.Bank.normalize_amount
    aegis_link.Bank.balance_of
one_applied = refl

-- The error of the wallets is the only one, since they are written after the rollback.
undone_for_hook :
    (submit_deposit_claim none plain_crypto (λ t. true) failing claim attestation).2
    ≡ hook_failed ∷ []
unfolding submit_deposit_claim aegis_link.Bridge.Keeper.execute_deposit_claim
    aegis_link.Bridge.State.ensure_circuit_healthy aegis_link.Bridge.State.new_keeper
    aegis_link.Bridge.Claim.deposit_validate_basic aegis_link.Text.text_beq
    aegis_link.Bridge.Claim.identity_validate_basic aegis_link.Text.trim_space
    aegis_link.Bridge.Claim.replay_key aegis_link.Codec.hex_encode
    aegis_link.Bridge.Claim.canonical_identity_bytes aegis_link.Bridge.Claim.write_canonical_string
    aegis_link.Bridge.Claim.canonical_replay_source_asset_kind aegis_link.Codec.put_uint64
    aegis_link.Common.Map.lookup aegis_link.Bridge.Verify.verify_deposit_claim
    aegis_link.Bridge.Attestation.validate_basic aegis_link.Bridge.Claim.claim_digest
    aegis_link.Bridge.Claim.canonical_claim_bytes aegis_link.Bridge.Accounting.accept_deposit_claim
    aegis_link.Bridge.Accounting.accounting_fault
    aegis_link.Bridge.Accounting.check_accounting_invariant
    aegis_link.Bridge.Accounting.expect_claims aegis_link.Bridge.Accounting.expect_withdrawals
    aegis_link.Bridge.Accounting.match_remaining aegis_link.Bridge.Accounting.match_supply
    aegis_link.Bridge.Accounting.mint_representation aegis_link.Bridge.Attestation.encoded_field
    aegis_link.Bridge.Attestation.is_seen aegis_link.Bridge.Attestation.join_fields
    aegis_link.Bridge.Attestation.normalize_signer_address
    aegis_link.Bridge.Attestation.signer_address_from_public_key
    aegis_link.Bridge.Attestation.signing_digest aegis_link.Bridge.Attestation.signing_fields
    aegis_link.Bridge.Attestation.validate_envelope aegis_link.Bridge.Attestation.validate_proofs
    aegis_link.Bridge.Attestation.validate_signers aegis_link.Bridge.Attestation.verify_proof
    aegis_link.Bridge.Attestation.verify_recovered aegis_link.Bridge.Claim.write_canonical_big_int
    aegis_link.Bridge.Keeper.claim_asset aegis_link.Bridge.Keeper.settle_claim
    aegis_link.Bridge.Keeper.spend_limit aegis_link.Bridge.Keeper.usable_asset
    aegis_link.Bridge.SignerSet.insert_sorted aegis_link.Bridge.SignerSet.is_active
    aegis_link.Bridge.SignerSet.normalize_signer_set aegis_link.Bridge.SignerSet.select_active
    aegis_link.Bridge.SignerSet.sort_strings aegis_link.Bridge.SignerSet.text_leb
    aegis_link.Bridge.State.bridge_denom_for_asset aegis_link.Bridge.State.trip_circuit
    aegis_link.Bridge.Verify.active_signer_set aegis_link.Bridge.Verify.count_verified
    aegis_link.Codec.decimal aegis_link.Codec.digits_from aegis_link.Codec.int_decimal
    aegis_link.Codec.put_uvarint aegis_link.Common.Int.◌+ℤ◌ aegis_link.Common.Int.◌-ℤ◌
    aegis_link.Common.Map.erase aegis_link.Common.Map.insert aegis_link.Limits.active_usage
    aegis_link.Limits.check_transfer_at_height aegis_link.Limits.record_transfer_at_height
    aegis_link.Limits.recorded_usage aegis_link.Pauser.assert_not_paused aegis_link.Pauser.is_paused
    aegis_link.Text.drop_space aegis_link.Text.is_space₁ aegis_link.Text.is_space₂
    aegis_link.Text.is_space₃ aegis_link.Text.space_width aegis_link.Text.space_width_back
    aegis_link.Text.to_lower aegis_link.Text.trim_left aegis_link.Text.trim_right
    aegis_link.Registry.register_asset aegis_link.Registry.validate_basic
    aegis_link.Registry.canonical_asset aegis_link.Registry.derive_asset_metadata
    aegis_link.Registry.derive_destination_denom aegis_link.Registry.asset_prefix_from_asset_id
    aegis_link.Registry.normalized_symbol aegis_link.Registry.strip_marks
    aegis_link.Registry.ensure_destination_denom_available aegis_link.Registry.new_keeper
    aegis_link.Limits.set_limit aegis_link.Limits.limit_validate_basic aegis_link.Limits.new_keeper
    aegis_link.Pauser.new_keeper aegis_link.Text.cut_before aegis_link.Bank.credit
    aegis_link.Bank.credit_at aegis_link.Bank.arguments aegis_link.Bank.normalize_denom
    aegis_link.Bank.normalize_amount aegis_link.Bank.import_state aegis_link.Bank.load_balances
    aegis_link.Bank.normalize_amount_string aegis_link.Bank.Snapshot.export_state
    aegis_link.Bridge.Snapshot.import_state aegis_link.Bridge.Snapshot.export_state
    aegis_link.Limits.Snapshot.import_state aegis_link.Limits.Snapshot.export_state
    aegis_link.Limits.Snapshot.import_limits aegis_link.Limits.Snapshot.import_usage
    aegis_link.Codec.set_string
undone_for_hook = refl

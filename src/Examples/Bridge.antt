-- ===== src/Examples/Bridge.antt =====
-- The bridge on the small chain.
use aegis_link.Common.{
  Bool, true, false, ℕ, ◌≡◌, ◌≢◌, refl, sym, ◌⊎◌, inl, inr, Option, none, some, List, [], ◌∷◌, ◌++◌,
  ◌%◌, ◌<◌, All, map, arith,
}
use aegis_link.Common.Int.{ℤ, pos}
use aegis_link.Common.Map.{Map}
use aegis_link.Text.{Text, lit}
use aegis_link.Errors.{Error, err, duplicate_claim}
use aegis_link.Limits
use aegis_link.Limits.{clone_big_int}
use aegis_link.Pauser
use aegis_link.Registry
use aegis_link.Bridge.Claim.{
  ClaimIdentity, replay_key, deposit_validate_basic, canonical_identity_bytes,
}
use aegis_link.Bridge.Attestation.{normalize_signer_address}
use aegis_link.Bridge.SignerSet.{SignerSet, select_active, is_active, normalize_signer_set}
use aegis_link.Bridge.State.{Keeper, ensure_circuit_healthy}
use aegis_link.Bridge.Verify.{verify_deposit_claim}
use aegis_link.Bridge.Verify.Quorum.{IsAttested, verify-IsAttested}
use aegis_link.Bridge.Accounting.{accounting_fault}
use aegis_link.Bridge.Accounting.Check.{IsKept, IsBalanced, fault-IsBalanced, IsKept-fault}
use aegis_link.Bridge.Keeper.{
  Claimed, reject, execute_deposit_claim, execute_withdrawal, withdrawal_arguments,
}
use aegis_link.Bridge.Keeper.Cases.{IsVerified, IsClaimed, execute_deposit_claim-cases}
use aegis_link.Bridge.Keeper.Withdraw.{IsUncovered, IsWithdrawn, execute_withdrawal-cases}
use aegis_link.Bridge.Keeper.Invariant.{
  Steps, step, done, deposit, IsSafe, step-IsSafe, new_keeper-IsSafe, reachable-IsSafe,
}
use aegis_link.Bridge.Keeper.Replay.{deposit_once}
use aegis_link.Examples.Data.{plain_crypto, registry, limits, chain, signer, claim, attestation}

-- The deposit is accepted, and verified on the way.
accepted : (execute_deposit_claim plain_crypto chain claim attestation).2 ≡ none
unfolding aegis_link.Bridge.Keeper.execute_deposit_claim
    aegis_link.Bridge.State.ensure_circuit_healthy aegis_link.Bridge.State.new_keeper
    aegis_link.Bridge.Claim.deposit_validate_basic aegis_link.Text.text_beq
    aegis_link.Bridge.Claim.identity_validate_basic aegis_link.Text.trim_space
    aegis_link.Bridge.Claim.replay_key aegis_link.Codec.hex_encode
    aegis_link.Bridge.Claim.canonical_identity_bytes aegis_link.Bridge.Claim.write_canonical_string
    aegis_link.Bridge.Claim.canonical_replay_source_asset_kind aegis_link.Codec.put_uint64
    aegis_link.Common.Map.lookup aegis_link.Bridge.Verify.verify_deposit_claim
    aegis_link.Bridge.Attestation.validate_basic aegis_link.Bridge.Claim.claim_digest
    aegis_link.Bridge.Claim.canonical_claim_bytes aegis_link.Bridge.Accounting.accept_deposit_claim
    aegis_link.Bridge.Accounting.accounting_fault
    aegis_link.Bridge.Accounting.check_accounting_invariant
    aegis_link.Bridge.Accounting.expect_claims aegis_link.Bridge.Accounting.expect_withdrawals
    aegis_link.Bridge.Accounting.match_remaining aegis_link.Bridge.Accounting.match_supply
    aegis_link.Bridge.Accounting.mint_representation aegis_link.Bridge.Attestation.encoded_field
    aegis_link.Bridge.Attestation.is_seen aegis_link.Bridge.Attestation.join_fields
    aegis_link.Bridge.Attestation.normalize_signer_address
    aegis_link.Bridge.Attestation.signer_address_from_public_key
    aegis_link.Bridge.Attestation.signing_digest aegis_link.Bridge.Attestation.signing_fields
    aegis_link.Bridge.Attestation.validate_envelope aegis_link.Bridge.Attestation.validate_proofs
    aegis_link.Bridge.Attestation.validate_signers aegis_link.Bridge.Attestation.verify_proof
    aegis_link.Bridge.Attestation.verify_recovered aegis_link.Bridge.Claim.write_canonical_big_int
    aegis_link.Bridge.Keeper.claim_asset aegis_link.Bridge.Keeper.settle_claim
    aegis_link.Bridge.Keeper.spend_limit aegis_link.Bridge.Keeper.usable_asset
    aegis_link.Bridge.SignerSet.insert_sorted aegis_link.Bridge.SignerSet.is_active
    aegis_link.Bridge.SignerSet.normalize_signer_set aegis_link.Bridge.SignerSet.select_active
    aegis_link.Bridge.SignerSet.sort_strings aegis_link.Bridge.SignerSet.text_leb
    aegis_link.Bridge.State.bridge_denom_for_asset aegis_link.Bridge.State.trip_circuit
    aegis_link.Bridge.Verify.active_signer_set aegis_link.Bridge.Verify.count_verified
    aegis_link.Codec.decimal aegis_link.Codec.digits_from aegis_link.Codec.int_decimal
    aegis_link.Codec.put_uvarint aegis_link.Common.Int.◌+ℤ◌ aegis_link.Common.Int.◌-ℤ◌
    aegis_link.Common.Map.erase aegis_link.Common.Map.insert aegis_link.Limits.active_usage
    aegis_link.Limits.check_transfer_at_height aegis_link.Limits.record_transfer_at_height
    aegis_link.Limits.recorded_usage aegis_link.Pauser.assert_not_paused aegis_link.Pauser.is_paused
    aegis_link.Text.drop_space aegis_link.Text.is_space₁ aegis_link.Text.is_space₂
    aegis_link.Text.is_space₃ aegis_link.Text.space_width aegis_link.Text.space_width_back
    aegis_link.Text.to_lower aegis_link.Text.trim_left aegis_link.Text.trim_right
    aegis_link.Registry.register_asset aegis_link.Registry.validate_basic
    aegis_link.Registry.canonical_asset aegis_link.Registry.derive_asset_metadata
    aegis_link.Registry.derive_destination_denom aegis_link.Registry.asset_prefix_from_asset_id
    aegis_link.Registry.normalized_symbol aegis_link.Registry.strip_marks
    aegis_link.Registry.ensure_destination_denom_available aegis_link.Registry.new_keeper
    aegis_link.Limits.set_limit aegis_link.Limits.limit_validate_basic aegis_link.Limits.new_keeper
    aegis_link.Pauser.new_keeper aegis_link.Text.cut_before
accepted = refl

verified : verify_deposit_claim plain_crypto chain claim attestation ≡ none
unfolding aegis_link.Bridge.Keeper.execute_deposit_claim
    aegis_link.Bridge.State.ensure_circuit_healthy aegis_link.Bridge.State.new_keeper
    aegis_link.Bridge.Claim.deposit_validate_basic aegis_link.Text.text_beq
    aegis_link.Bridge.Claim.identity_validate_basic aegis_link.Text.trim_space
    aegis_link.Bridge.Claim.replay_key aegis_link.Codec.hex_encode
    aegis_link.Bridge.Claim.canonical_identity_bytes aegis_link.Bridge.Claim.write_canonical_string
    aegis_link.Bridge.Claim.canonical_replay_source_asset_kind aegis_link.Codec.put_uint64
    aegis_link.Common.Map.lookup aegis_link.Bridge.Verify.verify_deposit_claim
    aegis_link.Bridge.Attestation.validate_basic aegis_link.Bridge.Claim.claim_digest
    aegis_link.Bridge.Claim.canonical_claim_bytes aegis_link.Bridge.Accounting.accept_deposit_claim
    aegis_link.Bridge.Accounting.accounting_fault
    aegis_link.Bridge.Accounting.check_accounting_invariant
    aegis_link.Bridge.Accounting.expect_claims aegis_link.Bridge.Accounting.expect_withdrawals
    aegis_link.Bridge.Accounting.match_remaining aegis_link.Bridge.Accounting.match_supply
    aegis_link.Bridge.Accounting.mint_representation aegis_link.Bridge.Attestation.encoded_field
    aegis_link.Bridge.Attestation.is_seen aegis_link.Bridge.Attestation.join_fields
    aegis_link.Bridge.Attestation.normalize_signer_address
    aegis_link.Bridge.Attestation.signer_address_from_public_key
    aegis_link.Bridge.Attestation.signing_digest aegis_link.Bridge.Attestation.signing_fields
    aegis_link.Bridge.Attestation.validate_envelope aegis_link.Bridge.Attestation.validate_proofs
    aegis_link.Bridge.Attestation.validate_signers aegis_link.Bridge.Attestation.verify_proof
    aegis_link.Bridge.Attestation.verify_recovered aegis_link.Bridge.Claim.write_canonical_big_int
    aegis_link.Bridge.Keeper.claim_asset aegis_link.Bridge.Keeper.settle_claim
    aegis_link.Bridge.Keeper.spend_limit aegis_link.Bridge.Keeper.usable_asset
    aegis_link.Bridge.SignerSet.insert_sorted aegis_link.Bridge.SignerSet.is_active
    aegis_link.Bridge.SignerSet.normalize_signer_set aegis_link.Bridge.SignerSet.select_active
    aegis_link.Bridge.SignerSet.sort_strings aegis_link.Bridge.SignerSet.text_leb
    aegis_link.Bridge.State.bridge_denom_for_asset aegis_link.Bridge.State.trip_circuit
    aegis_link.Bridge.Verify.active_signer_set aegis_link.Bridge.Verify.count_verified
    aegis_link.Codec.decimal aegis_link.Codec.digits_from aegis_link.Codec.int_decimal
    aegis_link.Codec.put_uvarint aegis_link.Common.Int.◌+ℤ◌ aegis_link.Common.Int.◌-ℤ◌
    aegis_link.Common.Map.erase aegis_link.Common.Map.insert aegis_link.Limits.active_usage
    aegis_link.Limits.check_transfer_at_height aegis_link.Limits.record_transfer_at_height
    aegis_link.Limits.recorded_usage aegis_link.Pauser.assert_not_paused aegis_link.Pauser.is_paused
    aegis_link.Text.drop_space aegis_link.Text.is_space₁ aegis_link.Text.is_space₂
    aegis_link.Text.is_space₃ aegis_link.Text.space_width aegis_link.Text.space_width_back
    aegis_link.Text.to_lower aegis_link.Text.trim_left aegis_link.Text.trim_right
    aegis_link.Registry.register_asset aegis_link.Registry.validate_basic
    aegis_link.Registry.canonical_asset aegis_link.Registry.derive_asset_metadata
    aegis_link.Registry.derive_destination_denom aegis_link.Registry.asset_prefix_from_asset_id
    aegis_link.Registry.normalized_symbol aegis_link.Registry.strip_marks
    aegis_link.Registry.ensure_destination_denom_available aegis_link.Registry.new_keeper
    aegis_link.Limits.set_limit aegis_link.Limits.limit_validate_basic aegis_link.Limits.new_keeper
    aegis_link.Pauser.new_keeper aegis_link.Text.cut_before
verified = refl

abbrev after : Keeper
after = (execute_deposit_claim plain_crypto chain claim attestation).0

chain-IsSafe : IsSafe chain
chain-IsSafe = new_keeper-IsSafe registry limits Pauser.new_keeper (signer ∷ []) 1

one_deposit : Steps plain_crypto chain after
one_deposit = step chain after after (deposit chain claim attestation) (done after)

reachable-IsSafe_example : IsSafe after
reachable-IsSafe_example =
    reachable-IsSafe plain_crypto registry limits Pauser.new_keeper (signer ∷ []) 1 after
      one_deposit

deposit_once_example :
    let result = execute_deposit_claim plain_crypto after claim attestation in
    ((deposit_validate_basic plain_crypto claim ≡ none)
      × (result ≡ reject after claim.identity.message_id duplicate_claim))
    ⊎ ((e : Error) × (deposit_validate_basic plain_crypto claim ≡ some e)
        × (result ≡ reject after [] e))
deposit_once_example =
    deposit_once plain_crypto chain claim attestation chain-IsSafe accepted after (done after) claim
      attestation refl

verify-IsAttested_example : IsAttested plain_crypto chain claim attestation
verify-IsAttested_example = verify-IsAttested plain_crypto chain claim attestation verified

execute_deposit_claim-cases_example :
    let result = execute_deposit_claim plain_crypto chain claim attestation in
    ((e : Error) × (id : Text) × (result ≡ reject chain id e))
    ⊎ (IsVerified plain_crypto chain claim attestation
        × IsClaimed chain (replay_key plain_crypto claim.identity) claim result)
execute_deposit_claim-cases_example =
    execute_deposit_claim-cases plain_crypto chain claim attestation chain-IsSafe.kept

abbrev recipient : Text
recipient = lit "0x00000000000000000000000000000000000000aa"

after-IsKept : IsKept after
after-IsKept =
    (step-IsSafe plain_crypto chain after (deposit chain claim attestation) chain-IsSafe).kept

execute_withdrawal-cases_example :
    let result =
      execute_withdrawal plain_crypto after (lit "eth") (some (pos 20)) recipient 90 (1 ∷ []) in
    ((e : Error) × (result ≡ (after, err e)))
    ⊎ IsUncovered plain_crypto after (lit "eth") (pos 20) recipient 90 (1 ∷ []) result
    ⊎ ((ensure_circuit_healthy after ≡ none)
        × (withdrawal_arguments (lit "eth") (some (pos 20)) recipient 90 (1 ∷ []) ≡ none)
        × IsWithdrawn plain_crypto after (lit "eth") (pos 20) recipient 90 (1 ∷ []) result)
execute_withdrawal-cases_example =
    execute_withdrawal-cases plain_crypto after (lit "eth") (some (pos 20)) recipient 90 (1 ∷ [])
      after-IsKept

after_sound : accounting_fault after ≡ none
after_sound = IsKept-fault after after-IsKept

IsKept-fault_example : accounting_fault after ≡ none
IsKept-fault_example = IsKept-fault after after-IsKept

fault-IsBalanced_example : IsBalanced after
fault-IsBalanced_example = fault-IsBalanced after after-IsKept.one_entry after_sound

-- ===== src/Relayer/Cosmos.antt =====
-- The side of the chain: relayer/internal/cosmos (client.go, watcher.go).
use aegis_link.Common.{
  ℕ, Bool, not, Option, none, some, List, if◌then◌else◌, ltb, nat_beq, is_empty,
}
use aegis_link.Common.Int.{ℤ}
use aegis_link.Text.{Text, text_beq, is_blank}
use aegis_link.Crypto.{Crypto}
use aegis_link.Errors.{Error}
use aegis_link.Limits.{not_positive}
use aegis_link.Bridge.Claim.{
  ClaimIdentity, DepositClaim, claim_kind_withdrawal, claim_digest, deposit_validate_basic,
  identity_validate_basic, replay_key,
}
use aegis_link.Bridge.Attestation.{Attestation, validate_basic}
use aegis_link.Bridge.SignerSet.{text_leb}
use aegis_link.Relayer.Services.{Failure, refused, invalid_request, cancelled}
use aegis_link.Relayer.Evm.{ReleaseRequest, is_zero_hex_address}

pub record Withdrawal : Type 0 where
  pub block_height : ℕ
  pub identity : ClaimIdentity
  pub asset_id : Text
  pub asset_address : Text
  pub amount : Option ℤ
  pub recipient : Text
  pub deadline : ℕ
  pub signature : List ℕ

-- A test of the chain's types, and then the others.
abbrev refused_or : Option Error → Option Failure → Option Failure
refused_or (some e) rest = some (refused e)
refused_or none rest = rest

abbrev invalid_if : Bool → Option Failure → Option Failure
invalid_if c rest = if c then some invalid_request else rest

-- `Withdrawal.ReleaseRequest`
unfoldable pub release_request : Withdrawal → ReleaseRequest
release_request w = record {
  message_id = w.identity.message_id;
  asset_address = w.asset_address;
  amount = w.amount;
  recipient = w.recipient;
  deadline = w.deadline;
  signature = w.signature;
}

module _ (crypto : Crypto) where
  -- `Withdrawal.Validate`
  unfoldable pub withdrawal_validate : Withdrawal → Option Failure
  withdrawal_validate w = refused_or (identity_validate_basic crypto w.identity) (
      invalid_if (not (text_beq w.identity.kind claim_kind_withdrawal)) (
        invalid_if (is_blank w.asset_id) (
          invalid_if (is_blank w.asset_address) (
            invalid_if (not_positive w.amount) (
              invalid_if (is_blank w.recipient) (
                invalid_if (is_zero_hex_address w.recipient)
                  (invalid_if (nat_beq w.deadline 0) (invalid_if (is_empty w.signature) none))))))))

  -- `Withdrawal.ReplayKey`
  unfoldable pub withdrawal_replay_key : Withdrawal → Text
  withdrawal_replay_key w = replay_key crypto w.identity

  -- `Submitter.SubmitDepositClaim` before it calls its sink.
  unfoldable pub submit_guard : Bool → DepositClaim → Attestation → Option Failure
  submit_guard is_cancelled claim attestation =
      if is_cancelled
      then some cancelled
      else refused_or (deposit_validate_basic crypto claim) (
          refused_or (validate_basic attestation) (
            invalid_if (not (text_beq attestation.message_id claim.identity.message_id)) (
              invalid_if (not (text_beq attestation.payload_hash (claim_digest crypto claim)))
                none)))

-- The order of the withdrawals: by height, by log index and by transaction.
unfoldable pub withdrawal_less : Withdrawal → Withdrawal → Bool
withdrawal_less a b =
    if not (nat_beq a.block_height b.block_height)
    then ltb a.block_height b.block_height
    else if not (nat_beq a.identity.source_log_index b.identity.source_log_index)
    then ltb a.identity.source_log_index b.identity.source_log_index
    else not (text_leb b.identity.source_tx_hash a.identity.source_tx_hash)

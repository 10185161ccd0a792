-- ===== src/Relayer/Evm.antt =====
-- The Ethereum side: relayer/internal/evm (client.go, watcher.go).
pub mod Keys
use aegis_link.Common.{
  ℕ, Bool, true, false, Option, none, some, List, [], if◌then◌else◌, ltb, nat_beq, is_empty, not,
}
use aegis_link.Common.Int.{ℤ}
use aegis_link.Text.{Text, text_beq, trim_space, is_blank, equal_fold}
use aegis_link.Crypto.{Crypto}
use aegis_link.Limits.{not_positive}
use aegis_link.Bridge.Claim.{
  ClaimIdentity, DepositClaim, claim_kind_deposit, source_asset_kind_erc20,
  source_asset_kind_native_eth, replay_key,
}
use aegis_link.Bridge.SignerSet.{text_leb}
use aegis_link.Bridge.State.{canonical_native_eth_address}
use aegis_link.Relayer.Services.{Failure, invalid_request, cancelled}

pub record DepositEvent : Type 0 where
  pub block_number : ℕ
  pub source_chain_id : Text
  pub source_contract : Text
  pub tx_hash : Text
  pub log_index : ℕ
  pub nonce : ℕ
  pub deposit_id : Text
  pub message_id : Text
  pub source_asset_kind : Text
  pub asset_address : Text
  pub asset_id : Text
  pub amount : Option ℤ
  pub recipient : Text
  pub expiry : ℕ

-- `isZeroHexAddress`
unfoldable pub is_zero_hex_address : Text → Bool
is_zero_hex_address value = equal_fold (trim_space value) canonical_native_eth_address

abbrev event_identity : DepositEvent → Text → ClaimIdentity
event_identity e kind = record {
  kind = claim_kind_deposit;
  source_asset_kind = kind;
  source_chain_id = e.source_chain_id;
  source_contract = e.source_contract;
  source_tx_hash = e.tx_hash;
  source_log_index = e.log_index;
  nonce = e.nonce;
  message_id = [];
}

-- The kind of the asset in the claim: the event's, or what its address says.
unfoldable pub claim_asset_kind : DepositEvent → Text
unfolding is_zero_hex_address
claim_asset_kind e =
    if not (text_beq e.source_asset_kind [])
    then e.source_asset_kind
    else if is_zero_hex_address e.asset_address
    then source_asset_kind_native_eth
    else source_asset_kind_erc20

module _ (crypto : Crypto) where
  -- `DepositEvent.ReplayKey`
  unfoldable pub event_replay_key : DepositEvent → Text
  event_replay_key e = replay_key crypto (event_identity e e.source_asset_kind)

  -- `DepositEvent.Claim`
  unfoldable pub event_claim : DepositEvent → Text → DepositClaim
  unfolding claim_asset_kind
  event_claim e destination_chain_id =
      let identity = event_identity e (claim_asset_kind e) in
      record {
        identity = record identity { message_id = replay_key crypto identity };
        destination_chain_id = destination_chain_id;
        asset_id = e.asset_id;
        amount = e.amount;
        recipient = e.recipient;
        deadline = e.expiry;
      }

pub record ReleaseRequest : Type 0 where
  pub message_id : Text
  pub asset_address : Text
  pub amount : Option ℤ
  pub recipient : Text
  pub deadline : ℕ
  pub signature : List ℕ

abbrev invalid_if : Bool → Option Failure → Option Failure
invalid_if c rest = if c then some invalid_request else rest

-- `ReleaseRequest.Validate`
unfoldable pub release_validate : ReleaseRequest → Option Failure
unfolding is_zero_hex_address
release_validate r = invalid_if (is_blank r.message_id) (
    invalid_if (is_blank r.asset_address) (
      invalid_if (not_positive r.amount) (
        invalid_if (is_blank r.recipient) (
          invalid_if (is_zero_hex_address r.recipient)
            (invalid_if (nat_beq r.deadline 0) (invalid_if (is_empty r.signature) none))))))

-- `Releaser.ReleaseWithdrawal` before it calls its target.
unfoldable pub release_guard : Bool → ReleaseRequest → Option Failure
unfolding release_validate
release_guard is_cancelled r = if is_cancelled then some cancelled else release_validate r

-- The order of the events: by block, by index in the block and by transaction.
unfoldable pub event_less : DepositEvent → DepositEvent → Bool
event_less a b =
    if not (nat_beq a.block_number b.block_number)
    then ltb a.block_number b.block_number
    else if not (nat_beq a.log_index b.log_index)
    then ltb a.log_index b.log_index
    else not (text_leb b.tx_hash a.tx_hash)

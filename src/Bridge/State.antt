-- ===== src/Bridge/State.antt =====
-- The state of the bridge keeper: x/bridge/keeper/keeper.go and accounting.go. The keepers that Go
-- shares by pointers stand in this one record.
use aegis_link.Common.{
  ℕ, ◌+◌, ◌%◌, ◌^◌, Bool, true, false, ◌&&◌, not, Option, none, some, List, [], ◌∷◌, ◌++◌,
  if◌then◌else◌, nat_beq,
}
use aegis_link.Common.Int.{ℤ}
use aegis_link.Common.Map.{Map}
use aegis_link.Text.{Text, lit, trim_space, text_beq, equal_fold}
use aegis_link.Errors.{Error, bridge_circuit_open}
use aegis_link.Codec.{hex_encode, decimal, int_decimal}
use aegis_link.Crypto.{Crypto}
use aegis_link.Limits
use aegis_link.Pauser
use aegis_link.Registry
use aegis_link.Registry.{Asset}
use aegis_link.Bridge.Claim.{ClaimIdentity, claim_kind_withdrawal, replay_key}
use aegis_link.Bridge.SignerSet.{SignerSet, normalize_signer_set}

abbrev pub claim_status_accepted : Text
claim_status_accepted = lit "accepted"

abbrev pub claim_status_rejected : Text
claim_status_rejected = lit "rejected"

pub record ClaimResult : Type 0 where
  pub status : Text
  pub message_id : Text
  pub denom : Text
  pub amount : Option ℤ

pub record ClaimRecord : Type 0 where
  pub message_id : Text
  pub source_tx_hash : Text
  pub denom : Text
  pub asset_id : Text
  pub recipient : Text
  pub amount : ℤ
  pub status : Text

pub record WithdrawalRecord : Type 0 where
  pub block_height : ℕ
  pub identity : ClaimIdentity
  pub asset_id : Text
  pub asset_address : Text
  pub amount : ℤ
  pub recipient : Text
  pub deadline : ℕ
  pub signature : List ℕ

pub record Keeper : Type 0 where
  pub registry_keeper : Registry.Keeper
  pub limits_keeper : Limits.Keeper
  pub pauser_keeper : Pauser.Keeper
  pub signer_sets : Map ℕ SignerSet
  pub current_height : ℕ
  pub processed_claims : Map Text ClaimRecord
  pub rejected_claims : ℕ
  pub supply_by_denom : Map Text ℤ
  pub withdrawals : List WithdrawalRecord
  pub circuit_breaker_tripped : Bool
  pub last_invariant_error : Option Error  -- `none` is the empty text
  pub next_withdrawal_nonce : ℕ

-- `NewKeeper`
unfoldable pub new_keeper : Registry.Keeper → Limits.Keeper → Pauser.Keeper → List Text → ℕ → Keeper
unfolding normalize_signer_set
new_keeper registry limits pauser allowed_signers required_threshold = record {
  registry_keeper = registry;
  limits_keeper = limits;
  pauser_keeper = pauser;
  signer_sets =
      (
        1,
        normalize_signer_set (record {
          version = 1;
          signers = allowed_signers;
          threshold = if nat_beq required_threshold 0 then 1 else required_threshold;
          activated_at = 0;
          expires_at = 0;
        }),
      )
      ∷ [];
  current_height = 0;
  processed_claims = [];
  rejected_claims = 0;
  supply_by_denom = [];
  withdrawals = [];
  circuit_breaker_tripped = false;
  last_invariant_error = none;
  next_withdrawal_nonce = 1;
}

unfoldable pub set_current_height : Keeper → ℕ → Keeper
set_current_height k height = record k { current_height = height }

abbrev pub canonical_native_eth_address : Text
canonical_native_eth_address = lit "0x0000000000000000000000000000000000000000"

unfoldable pub bridge_denom_for_asset : Asset → Text
bridge_denom_for_asset a =
    let denom = trim_space a.destination_denom in
    if not (text_beq denom []) then denom else trim_space a.denom

unfoldable pub source_asset_address_for_withdrawal : Asset → Text
source_asset_address_for_withdrawal a =
    let address = trim_space a.source_asset_address in
    let contract = trim_space a.source_contract in
    if not (text_beq address [])
    then address
    else if not (text_beq contract [])
    then contract
    else if text_beq a.source_asset_kind Registry.source_asset_kind_native_eth
    then canonical_native_eth_address
    else []

unfoldable pub is_zero_hex_address : Text → Bool
is_zero_hex_address value =
    let trimmed = trim_space value in
    not (text_beq trimmed []) && equal_fold trimmed canonical_native_eth_address

-- A uint64 counter one up.
abbrev pub increment : ℕ → ℕ
increment n = (n + 1) % 2 ^ 64

-- `ensureCircuitHealthy`: `ErrBridgeCircuitOpen`, with the recorded reason as its message.
unfoldable pub ensure_circuit_healthy : Keeper → Option Error
ensure_circuit_healthy k = if k.circuit_breaker_tripped then some bridge_circuit_open else none

-- `tripCircuit`
unfoldable pub trip_circuit : Keeper → Error → Keeper
trip_circuit k reason = record k {
  circuit_breaker_tripped = true;
  last_invariant_error = some reason;
}

module _ (crypto : Crypto) where
  -- The text whose hash is the transaction hash of a withdrawal.
  abbrev withdrawal_tx_hash : ℕ → ℕ → Text → Text → ℤ → Text
  withdrawal_tx_hash height nonce asset_id recipient amount =
      lit "0x"
      ++ hex_encode (
          crypto.sha256 (
            decimal height
            ++ (0x3a ∷ decimal nonce)
            ++ (0x3a ∷ asset_id)
            ++ (0x3a ∷ trim_space recipient)
            ++ (0x3a ∷ int_decimal amount)))

  unfoldable pub withdrawal_identity : ℕ → ℕ → Text → Text → ℤ → ClaimIdentity
  withdrawal_identity height nonce asset_id recipient amount =
      let identity : ClaimIdentity = record {
        kind = claim_kind_withdrawal;
        source_asset_kind = [];
        source_chain_id = lit "aegislink-1";
        source_contract = lit "aegislink.bridge";
        source_tx_hash = withdrawal_tx_hash height nonce asset_id recipient amount;
        source_log_index = 0;
        nonce = nonce;
        message_id = [];
      } in
      record identity { message_id = replay_key crypto identity }

  -- The record that `newWithdrawalRecord` makes; the nonce counter goes up in `execute_withdrawal`.
  unfoldable pub new_withdrawal_record :
      Keeper → Text → Text → ℤ → Text → ℕ → List ℕ → WithdrawalRecord
  unfolding withdrawal_identity
  new_withdrawal_record k asset_id asset_address amount recipient deadline signature = record {
    block_height = k.current_height;
    identity =
        withdrawal_identity k.current_height k.next_withdrawal_nonce asset_id recipient amount;
    asset_id = trim_space asset_id;
    asset_address = trim_space asset_address;
    amount = amount;
    recipient = trim_space recipient;
    deadline = deadline;
    signature = signature;
  }

-- ===== src/Examples/Data.antt =====
-- A small chain: one asset, one signer, one deposit and its attestation.
use aegis_link.Common.{true, ℕ, some, List, [], ◌∷◌}
use aegis_link.Common.Int.{pos}
use aegis_link.Text.{Text, lit}
use aegis_link.Crypto.{Crypto}
use aegis_link.Limits
use aegis_link.Limits.{RateLimit, set_limit}
use aegis_link.Pauser
use aegis_link.Registry
use aegis_link.Registry.{Asset, register_asset}
use aegis_link.Bridge.Claim.{
  ClaimIdentity, DepositClaim, claim_kind_deposit, replay_key, claim_digest,
}
use aegis_link.Bridge.Attestation.{Attestation, signer_address_from_public_key}
use aegis_link.Bridge.State.{Keeper, new_keeper}

-- Hashes that keep their input, and a recovery that reads the key from the signature.
abbrev pub plain_crypto : Crypto
plain_crypto = record {
  sha256 = λ x. x;
  keccak256 = λ x. x;
  recover_compact = λ signature digest. some signature;
}

abbrev pub ether : Asset
ether = record {
  asset_id = lit "eth";
  source_chain_id = lit "11155111";
  source_asset_kind = Registry.source_asset_kind_native_eth;
  source_asset_address = [];
  source_contract = [];
  denom = [];
  destination_denom = [];
  decimals = 18;
  display_name = lit "Ether";
  display_symbol = lit "ETH";
  enabled = true;
}

abbrev pub token : Asset
token = record ether {
  asset_id = lit "eth.usdc";
  source_asset_kind = Registry.source_asset_kind_erc20;
  source_contract = lit "0xc0ffee";
  display_name = lit "USD Coin";
  display_symbol = lit "USDC";
}

abbrev pub daily_limit : RateLimit
daily_limit = record { asset_id = lit "eth"; window_blocks = 10; max_amount = some (pos 100) }

abbrev pub signer_key : List ℕ
signer_key =
    4 ∷ 1 ∷ 2 ∷ 3 ∷ 4 ∷ 5 ∷ 6 ∷ 7 ∷ 8 ∷ 9 ∷ 10 ∷ 11 ∷ 12 ∷ 13 ∷ 14 ∷ 15 ∷ 16 ∷ 17 ∷ 18 ∷ 19 ∷ 20
    ∷ []

abbrev pub signer : Text
signer = signer_address_from_public_key plain_crypto signer_key

abbrev pub registry : Registry.Keeper
registry = (register_asset Registry.new_keeper ether).0

abbrev pub limits : Limits.Keeper
limits = (set_limit Limits.new_keeper daily_limit).0

abbrev pub chain : Keeper
chain = new_keeper registry limits Pauser.new_keeper (signer ∷ []) 1

abbrev pub unnamed_identity : ClaimIdentity
unnamed_identity = record {
  kind = claim_kind_deposit;
  source_asset_kind = lit "native_eth";
  source_chain_id = lit "11155111";
  source_contract = [];
  source_tx_hash = lit "0xabc";
  source_log_index = 3;
  nonce = 7;
  message_id = [];
}

abbrev pub identity : ClaimIdentity
identity = record unnamed_identity { message_id = replay_key plain_crypto unnamed_identity }

abbrev pub claim : DepositClaim
claim = record {
  identity = identity;
  destination_chain_id = lit "aegislink-1";
  asset_id = lit "eth";
  amount = some (pos 60);
  recipient = lit "cosmos1xyz";
  deadline = 50;
}

abbrev pub attestation : Attestation
attestation = record {
  message_id = identity.message_id;
  payload_hash = claim_digest plain_crypto claim;
  signers = [];
  proofs = record { signer = signer; signature = signer_key } ∷ [];
  threshold = 1;
  expiry = 50;
  signer_set_version = 1;
}

-- ===== src/Bridge/Claim.antt =====
-- Claims and their keys: x/bridge/types/claim.go and keys.go.
pub mod Identity
use aegis_link.Common.{
  ℕ, Bool, ◌&&◌, ◌||◌, not, Option, none, some, List, [], ◌++◌, length, if◌then◌else◌, nat_beq,
}
use aegis_link.Common.Int.{ℤ, is_positive}
use aegis_link.Text.{Text, lit, trim_space, text_beq, is_blank}
use aegis_link.Errors.{Error, invalid_claim}
use aegis_link.Limits.{not_positive}
use aegis_link.Codec.{put_uvarint, max_varint_len64, put_uint64, hex_encode, int_decimal}
use aegis_link.Crypto.{Crypto}

abbrev pub claim_kind_deposit : Text
claim_kind_deposit = lit "deposit"

abbrev pub claim_kind_withdrawal : Text
claim_kind_withdrawal = lit "withdrawal"

abbrev pub source_asset_kind_native_eth : Text
source_asset_kind_native_eth = lit "native_eth"

abbrev pub source_asset_kind_erc20 : Text
source_asset_kind_erc20 = lit "erc20"

pub record ClaimIdentity : Type 0 where
  pub kind : Text
  pub source_asset_kind : Text
  pub source_chain_id : Text
  pub source_contract : Text
  pub source_tx_hash : Text
  pub source_log_index : ℕ
  pub nonce : ℕ
  pub message_id : Text

-- `canonicalReplaySourceAssetKind`: ERC-20 assets are keyed as those of no stated kind.
unfoldable pub canonical_replay_source_asset_kind : Text → Text
canonical_replay_source_asset_kind s =
    let trimmed = trim_space s in if text_beq trimmed source_asset_kind_erc20 then [] else trimmed

-- `writeCanonicalString`, as the bytes that it appends: a length and the trimmed text.
unfoldable pub write_canonical_string : Text → List ℕ
unfolding put_uvarint
write_canonical_string value =
    let normalized = trim_space value in
    put_uvarint max_varint_len64 (length normalized) ++ normalized

-- `value.String()`, the empty text for a nil pointer.
abbrev pub amount_text : Option ℤ → Text
amount_text none = []
amount_text (some a) = int_decimal a

unfoldable pub write_canonical_big_int : Option ℤ → List ℕ
unfolding write_canonical_string
write_canonical_big_int value = write_canonical_string (amount_text value)

unfoldable pub canonical_identity_bytes : ClaimIdentity → List ℕ
canonical_identity_bytes i =
    write_canonical_string i.kind
    ++ (write_canonical_string (canonical_replay_source_asset_kind i.source_asset_kind)
        ++ (write_canonical_string i.source_chain_id
            ++ (write_canonical_string i.source_contract
                ++ (write_canonical_string i.source_tx_hash
                    ++ (put_uint64 i.source_log_index ++ put_uint64 i.nonce)))))

pub record DepositClaim : Type 0 where
  pub identity : ClaimIdentity
  pub destination_chain_id : Text
  pub asset_id : Text
  pub amount : Option ℤ
  pub recipient : Text
  pub deadline : ℕ

-- A withdrawal claim has the fields of a deposit claim.
abbrev pub WithdrawalClaim : Type 0
WithdrawalClaim = DepositClaim

unfoldable pub canonical_claim_bytes : DepositClaim → List ℕ
canonical_claim_bytes c =
    canonical_identity_bytes c.identity
    ++ (write_canonical_string c.destination_chain_id
        ++ (write_canonical_string c.asset_id
            ++ (write_canonical_big_int c.amount
                ++ (write_canonical_string c.recipient ++ put_uint64 c.deadline))))

abbrev err_if : Bool → Option Error → Option Error
err_if c rest = if c then some invalid_claim else rest

module _ (crypto : Crypto) where
  -- `ReplayKey`, which `ClaimIdentity.ReplayKey` and `DerivedMessageID` call.
  unfoldable pub replay_key : ClaimIdentity → Text
  replay_key i = hex_encode (crypto.sha256 (canonical_identity_bytes i))

  -- `ClaimIdentity.ValidateBasic`
  unfoldable pub identity_validate_basic : ClaimIdentity → Option Error
  identity_validate_basic i =
      let kind = trim_space i.source_asset_kind in
      err_if
        (not (text_beq i.kind claim_kind_deposit) && not (text_beq i.kind claim_kind_withdrawal))
        (err_if
          (not (text_beq kind [])
            && (not (text_beq kind source_asset_kind_native_eth)
                && not (text_beq kind source_asset_kind_erc20)))
          (err_if (is_blank i.source_chain_id) (
            err_if (is_blank i.source_tx_hash) (
              err_if
                ((text_beq kind [] || text_beq kind source_asset_kind_erc20)
                  && is_blank i.source_contract)
                (err_if (is_blank i.message_id)
                  (err_if (not (text_beq i.message_id (replay_key i))) none))))))

  -- What `DepositClaim.ValidateBasic` and `WithdrawalClaim.ValidateBasic` share after the kind.
  claim_validate_rest : DepositClaim → Option Error
  claim_validate_rest c = err_if (is_blank c.destination_chain_id) (
      err_if (is_blank c.asset_id) (
        err_if (not_positive c.amount)
          (err_if (is_blank c.recipient) (err_if (nat_beq c.deadline 0) none))))

  claim_validate_from : Option Error → DepositClaim → Option Error
  unfolding claim_validate_rest
  claim_validate_from (some e) c = some e
  claim_validate_from none c = claim_validate_rest c

  unfoldable pub deposit_validate_basic : DepositClaim → Option Error
  unfolding claim_validate_from
  deposit_validate_basic c =
      err_if (not (text_beq c.identity.kind claim_kind_deposit))
        (claim_validate_from (identity_validate_basic c.identity) c)

  unfoldable pub withdrawal_validate_basic : WithdrawalClaim → Option Error
  unfolding claim_validate_from
  withdrawal_validate_basic c =
      err_if (not (text_beq c.identity.kind claim_kind_withdrawal))
        (claim_validate_from (identity_validate_basic c.identity) c)

  -- `ClaimDigest`, which the two `Digest` methods call.
  unfoldable pub claim_digest : DepositClaim → Text
  claim_digest c = hex_encode (crypto.sha256 (canonical_claim_bytes c))

-- ===== src/Examples/Keys.antt =====
-- Replay keys and signer sets.
use mathlib.Core.List.{Permᴰ}
use aegis_link.Common.{
  false, ℕ, ◌≡◌, refl, ◌⊎◌, none, some, List, [], ◌∷◌, ◌%◌, ◌<◌, All, map, arith,
}
use aegis_link.Common.Map.{Map}
use aegis_link.Text.{Text, lit}
use aegis_link.Crypto.{Crypto}
use aegis_link.Bridge.Claim.{
  ClaimIdentity, replay_key, deposit_validate_basic, canonical_identity_bytes,
}
use aegis_link.Bridge.Claim.Identity.{IsSized, IsSameEvent, replay_key-inj}
use aegis_link.Bridge.Attestation.{Attestation, normalize_signer_address, signing_digest}
use aegis_link.Bridge.Attestation.Payload.{IsSamePayload, signing_digest-inj}
use aegis_link.Bridge.SignerSet.{SignerSet, select_active, is_active, normalize_signer_set}
use aegis_link.Bridge.SignerSet.Newest.{IsNewest, select_active-IsNewest}
use aegis_link.Bridge.SignerSet.Sorted.{IsSorted, normalize_signer_set-IsSorted}
use aegis_link.Examples.Data.{plain_crypto, identity, attestation}

-- A hash of bytes, and two spellings of one event.
abbrev byte_crypto : Crypto
byte_crypto = record plain_crypto { sha256 = λ x. map (λ b. b % 256) x }

bytes_of : (x : List ℕ) → All (λ b. b < 256) (map (λ b. b % 256) x)
bytes_of [] = tt
bytes_of (b ∷ x) = (omega arith, bytes_of x)

abbrev token : Text → ClaimIdentity
token kind = record identity { source_asset_kind = kind; source_contract = lit " 0xc0ffee" }

same_bytes :
    canonical_identity_bytes (token (lit "erc20")) ≡ canonical_identity_bytes (token (lit " "))
unfolding canonical_identity_bytes aegis_link.Bridge.Claim.write_canonical_string
    aegis_link.Bridge.Claim.canonical_replay_source_asset_kind replay_key
    aegis_link.Codec.hex_encode aegis_link.Codec.put_uint64 aegis_link.Codec.put_uvarint
    aegis_link.Text.text_beq aegis_link.Text.trim_space aegis_link.Text.drop_space
    aegis_link.Text.is_space₁ aegis_link.Text.is_space₂ aegis_link.Text.is_space₃
    aegis_link.Text.space_width aegis_link.Text.space_width_back aegis_link.Text.trim_left
    aegis_link.Text.trim_right
same_bytes = refl

same_key : replay_key byte_crypto (token (lit "erc20")) ≡ replay_key byte_crypto (token (lit " "))
unfolding canonical_identity_bytes aegis_link.Bridge.Claim.write_canonical_string
    aegis_link.Bridge.Claim.canonical_replay_source_asset_kind replay_key
    aegis_link.Codec.hex_encode aegis_link.Codec.put_uint64 aegis_link.Codec.put_uvarint
    aegis_link.Text.text_beq aegis_link.Text.trim_space aegis_link.Text.drop_space
    aegis_link.Text.is_space₁ aegis_link.Text.is_space₂ aegis_link.Text.is_space₃
    aegis_link.Text.space_width aegis_link.Text.space_width_back aegis_link.Text.trim_left
    aegis_link.Text.trim_right
same_key = refl

erc20-IsSized : IsSized (token (lit "erc20"))
unfolding canonical_identity_bytes aegis_link.Bridge.Claim.write_canonical_string
    aegis_link.Bridge.Claim.canonical_replay_source_asset_kind replay_key
    aegis_link.Codec.hex_encode aegis_link.Codec.put_uint64 aegis_link.Codec.put_uvarint
    aegis_link.Text.text_beq aegis_link.Text.trim_space aegis_link.Text.drop_space
    aegis_link.Text.is_space₁ aegis_link.Text.is_space₂ aegis_link.Text.is_space₃
    aegis_link.Text.space_width aegis_link.Text.space_width_back aegis_link.Text.trim_left
    aegis_link.Text.trim_right
erc20-IsSized = record {
  kind = omega arith;
  asset_kind = omega arith;
  chain_id = omega arith;
  contract = omega arith;
  tx_hash = omega arith;
  log_index = omega arith;
  nonce = omega arith;
}

blank-IsSized : IsSized (token (lit " "))
unfolding canonical_identity_bytes aegis_link.Bridge.Claim.write_canonical_string
    aegis_link.Bridge.Claim.canonical_replay_source_asset_kind replay_key
    aegis_link.Codec.hex_encode aegis_link.Codec.put_uint64 aegis_link.Codec.put_uvarint
    aegis_link.Text.text_beq aegis_link.Text.trim_space aegis_link.Text.drop_space
    aegis_link.Text.is_space₁ aegis_link.Text.is_space₂ aegis_link.Text.is_space₃
    aegis_link.Text.space_width aegis_link.Text.space_width_back aegis_link.Text.trim_left
    aegis_link.Text.trim_right
blank-IsSized = record {
  kind = omega arith;
  asset_kind = omega arith;
  chain_id = omega arith;
  contract = omega arith;
  tx_hash = omega arith;
  log_index = omega arith;
  nonce = omega arith;
}

replay_key-inj_example : IsSameEvent (token (lit "erc20")) (token (lit " "))
replay_key-inj_example =
    replay_key-inj byte_crypto (token (lit "erc20")) (token (lit " ")) bytes_of (λ e. same_bytes)
      erc20-IsSized blank-IsSized same_key

abbrev old_set : SignerSet
old_set = record {
  version = 1;
  signers = lit "0xB" ∷ lit "0xA" ∷ [];
  threshold = 2;
  activated_at = 0;
  expires_at = 0;
}

abbrev new_set : SignerSet
new_set = record {
  version = 2;
  signers = lit "0xC" ∷ [];
  threshold = 1;
  activated_at = 10;
  expires_at = 20;
}

abbrev sets : Map ℕ SignerSet
sets = (1, old_set) ∷ (2, new_set) ∷ []

select_active-IsNewest_example :
    ((select_active 15 none sets ≡ none) × All (λ p. is_active 15 p.1 ≡ false) sets)
    ⊎ ((s : SignerSet) × (select_active 15 none sets ≡ some s) × IsNewest 15 sets s)
select_active-IsNewest_example = select_active-IsNewest 15 sets

normalize_signer_set-IsSorted_example :
    let signers = (normalize_signer_set old_set).signers in
    IsSorted signers × Permᴰ signers (map normalize_signer_address old_set.signers)
normalize_signer_set-IsSorted_example = normalize_signer_set-IsSorted old_set

abbrev signed : Text → Text → Attestation
signed message hash = record attestation { message_id = message; payload_hash = hash }

same_digest :
    signing_digest plain_crypto (signed (lit "m1") (lit "0xAB"))
    ≡ signing_digest plain_crypto (signed (lit " m1") (lit "0xab "))
unfolding signing_digest aegis_link.Text.trim_space aegis_link.Text.to_lower
same_digest = refl

signing_digest-inj_example :
    IsSamePayload (signed (lit "m1") (lit "0xAB")) (signed (lit " m1") (lit "0xab "))
signing_digest-inj_example =
    signing_digest-inj plain_crypto (signed (lit "m1") (lit "0xAB"))
      (signed (lit " m1") (lit "0xab ")) (λ e. e) same_digest

-- ===== src/Relayer/Evm/Keys.antt =====
-- The key by which the relayer remembers a deposit, and the key by which the chain does.
use aegis_link.Common.{◌≡◌, refl, ap, sym, ◌∙◌, [], ◌⊎◌, inl, inr, false, Bool-cases, arith}
use aegis_link.Text.{trim_space, Text, text_beq, text_beq_iff}
use aegis_link.Crypto.{Crypto}
use aegis_link.Bridge.Claim.{
  canonical_identity_bytes, canonical_replay_source_asset_kind, replay_key, source_asset_kind_erc20,
}
use aegis_link.Relayer.Evm.{
  DepositEvent, claim_asset_kind, event_claim, event_replay_key, is_zero_hex_address,
}

canonical_erc20 : canonical_replay_source_asset_kind source_asset_kind_erc20 ≡ []
unfolding canonical_replay_source_asset_kind text_beq trim_space
canonical_erc20 = refl

canonical_blank : canonical_replay_source_asset_kind [] ≡ []
unfolding canonical_replay_source_asset_kind text_beq trim_space
canonical_blank = refl

same_kind :
    (e : DepositEvent)
    → (text_beq e.source_asset_kind [] ≡ false) ⊎ (is_zero_hex_address e.asset_address ≡ false)
    → canonical_replay_source_asset_kind (claim_asset_kind e)
      ≡ canonical_replay_source_asset_kind e.source_asset_kind
unfolding claim_asset_kind
same_kind e h = elim (Bool-cases (text_beq e.source_asset_kind [])) [
  | inr stated ↦ rw stated refl
  | inl blank ↦
      let none_stated : e.source_asset_kind ≡ [] = (text_beq_iff e.source_asset_kind []).0 blank in
      let erc20 : claim_asset_kind e ≡ source_asset_kind_erc20 = ground arith in
      ap canonical_replay_source_asset_kind erc20
      ∙ canonical_erc20
      ∙ sym canonical_blank
      ∙ ap canonical_replay_source_asset_kind (sym none_stated)
]

-- The relayer remembers a deposit by the key by which the chain keeps its claim, if the event
-- states the kind of its asset or its asset's address is not zero.
pub event_claim-replay_key :
    (crypto : Crypto) (e : DepositEvent) (destination_chain_id : Text)
    → (text_beq e.source_asset_kind [] ≡ false) ⊎ (is_zero_hex_address e.asset_address ≡ false)
    → replay_key crypto (event_claim crypto e destination_chain_id).identity
      ≡ event_replay_key crypto e
unfolding event_claim event_replay_key replay_key canonical_identity_bytes
event_claim-replay_key crypto e destination_chain_id h = rw (same_kind e h)

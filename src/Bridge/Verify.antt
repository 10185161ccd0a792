-- ===== src/Bridge/Verify.antt =====
-- The verification of a deposit claim against the active signer set:
-- x/bridge/keeper/verify_attestation.go and signer_set.go.
pub mod Quorum
use aegis_link.Common.{
  nat_eq, ℕ, zero, suc, ◌≤◌, Bool, true, false, ◌||◌, Option, none, some, List, [], ◌∷◌, map,
  if◌then◌else◌, ltb, nat_beq, not,
}
use aegis_link.Common.Map.{insert}
use aegis_link.Text.{Text, text_beq}
use aegis_link.Errors.{
  Error, Outcome, message_id_mismatch, payload_hash_mismatch, finality_window_expired,
  attestation_expired, signer_set_inactive, signer_set_version_mismatch,
  insufficient_attestation_quorum,
}
use aegis_link.Crypto.{Crypto}
use aegis_link.Bridge.Claim.{DepositClaim, claim_digest}
use aegis_link.Bridge.Attestation.{
  Attestation, AttestationProof, validate_basic, validate_envelope, is_seen, signing_digest,
  verify_proof, normalize_signer_address,
}
use aegis_link.Bridge.SignerSet
use aegis_link.Bridge.SignerSet.{SignerSet, normalize_signer_set, select_active}
use aegis_link.Bridge.State.{Keeper}

-- `ActiveSignerSet`; `none` is `ErrSignerSetInactive`.
unfoldable pub active_signer_set : Keeper → Option SignerSet
unfolding select_active
active_signer_set k = select_active k.current_height none k.signer_sets

-- `UpsertSignerSet`
unfoldable pub upsert_signer_set : Keeper → SignerSet → Outcome Keeper
upsert_signer_set k set = elim (SignerSet.validate_basic set) [
  | some e ↦ (k, some e)
  | none ↦
      (record k { signer_sets = insert set.version (normalize_signer_set set) k.signer_sets }, none)
]

abbrev err_if : Bool → Error → Option Error → Option Error
err_if c e rest = if c then some e else rest

module _ (crypto : Crypto) where
  -- The loop over the proofs: how many addresses of the allowed set are recovered, each counted
  -- once.
  unfoldable pub count_verified : List Text → List ℕ → List Text → List AttestationProof → ℕ
  count_verified allowed digest seen [] = 0
  count_verified allowed digest seen (p ∷ ps) = elim (verify_proof crypto p digest) [
    | none ↦ count_verified allowed digest seen ps
    | some recovered ↦
        let skip = count_verified allowed digest seen ps in
        let go_on = count_verified allowed digest (recovered ∷ seen) ps in
        let counted = suc go_on in
        if is_seen recovered seen
        then skip
        else if is_seen recovered allowed
        then counted
        else go_on
  ]

  -- The tests of `verifyDepositClaim` from the active signer set on. The envelope has been
  -- validated, so `SigningDigest` does not fail.
  verify_with : Attestation → Option SignerSet → Option Error
  unfolding count_verified
  verify_with a none = some signer_set_inactive
  verify_with a (some active) =
      err_if (not (nat_beq a.signer_set_version active.version)) signer_set_version_mismatch (
        err_if (ltb a.threshold active.threshold) insufficient_attestation_quorum (
          err_if
            (ltb
              (count_verified (map normalize_signer_address active.signers)
                (signing_digest crypto a) [] a.proofs)
              active.threshold)
            insufficient_attestation_quorum none))

  unfoldable pub verify_deposit_claim : Keeper → DepositClaim → Attestation → Option Error
  unfolding verify_with active_signer_set
  verify_deposit_claim k claim a = elim (validate_basic a) [
    | some e ↦ some e
    | none ↦ err_if (not (text_beq claim.identity.message_id a.message_id)) message_id_mismatch (
        err_if (not (text_beq (claim_digest crypto claim) a.payload_hash)) payload_hash_mismatch (
          err_if (ltb claim.deadline k.current_height) finality_window_expired (
            err_if (ltb a.expiry k.current_height) attestation_expired
              (verify_with a (active_signer_set k)))))
  ]

-- ===== src/Bridge/Attestation.antt =====
-- Attestations and their proofs: x/bridge/types/attestation.go and proof.go.
pub mod Payload
use aegis_link.Common.{
  ℕ, Bool, false, ◌||◌, Option, none, some, List, [], ◌∷◌, ◌++◌, length, is_empty, drop,
  if◌then◌else◌, ltb, nat_beq, ◌-◌,
}
use aegis_link.Text.{Text, lit, trim_space, to_lower, text_beq, is_blank}
use aegis_link.Errors.{Error, invalid_attestation}
use aegis_link.Codec.{decimal, hex_encode}
use aegis_link.Crypto.{Crypto}

pub record AttestationProof : Type 0 where
  pub signer : Text
  pub signature : List ℕ

pub record Attestation : Type 0 where
  pub message_id : Text
  pub payload_hash : Text
  pub signers : List Text
  pub proofs : List AttestationProof
  pub threshold : ℕ
  pub expiry : ℕ
  pub signer_set_version : ℕ

abbrev pub max_proofs_per_attestation : ℕ
max_proofs_per_attestation = 128

-- `_, ok := seen[s]` for a set of texts.
unfoldable pub is_seen : Text → List Text → Bool
is_seen s [] = false
is_seen s (t ∷ ts) = text_beq t s || is_seen s ts

abbrev err_if : Bool → Option Error → Option Error
err_if c rest = if c then some invalid_attestation else rest

unfoldable pub validate_envelope : Attestation → Option Error
validate_envelope a = err_if (is_blank a.message_id) (
    err_if (is_blank a.payload_hash) (
      err_if (nat_beq a.threshold 0)
        (err_if (nat_beq a.expiry 0) (err_if (nat_beq a.signer_set_version 0) none))))

-- The loop over the proofs: signers have names that differ, and signatures are not empty.
unfoldable pub validate_proofs : List Text → List AttestationProof → Option Error
validate_proofs seen [] = none
validate_proofs seen (p ∷ ps) =
    let signer = trim_space p.signer in
    let rest = validate_proofs (signer ∷ seen) ps in
    err_if (text_beq signer []) (err_if (is_empty p.signature) (err_if (is_seen signer seen) rest))

-- The loop over the listed signers.
unfoldable pub validate_signers : List Text → List Text → Option Error
validate_signers seen [] = none
validate_signers seen (s ∷ ss) =
    let signer = trim_space s in
    let rest = validate_signers (signer ∷ seen) ss in
    err_if (text_beq signer []) (err_if (is_seen signer seen) rest)

abbrev or_else : Option Error → Option Error → Option Error
or_else (some e) rest = some e
or_else none rest = rest

-- `Attestation.ValidateBasic`
unfoldable pub validate_basic : Attestation → Option Error
unfolding validate_envelope validate_proofs validate_signers
validate_basic a = or_else (validate_envelope a) (
    err_if (is_empty a.proofs) (
      err_if (ltb max_proofs_per_attestation (length a.proofs)) (
        err_if (ltb (length a.proofs) a.threshold)
          (or_else (validate_proofs [] a.proofs) (validate_signers [] a.signers)))))

-- `fmt.Sprintf("%d:%s", len(f), f)`
unfoldable pub encoded_field : Text → Text
encoded_field f = decimal (length f) ++ 0x3a ∷ f

-- `strings.Join(encoded, "|")` of the encoded fields.
unfoldable pub join_fields : List Text → Text
unfolding encoded_field
join_fields [] = []
join_fields (f ∷ []) = encoded_field f
join_fields (f ∷ g ∷ fs) = encoded_field f ++ 0x7c ∷ join_fields (g ∷ fs)

unfoldable pub signing_fields : Attestation → List Text
signing_fields a =
    lit "aegislink.attestation.v1"
    ∷ trim_space a.message_id
    ∷ to_lower (trim_space a.payload_hash)
    ∷ decimal a.threshold
    ∷ decimal a.expiry
    ∷ decimal a.signer_set_version
    ∷ []

unfoldable pub normalize_signer_address : Text → Text
normalize_signer_address address = to_lower (trim_space address)

module _ (crypto : Crypto) where
  -- `SigningDigest`, after the envelope has been validated.
  unfoldable pub signing_digest : Attestation → List ℕ
  unfolding join_fields signing_fields
  signing_digest a = crypto.keccak256 (join_fields (signing_fields a))

  -- `SignerAddressFromPublicKey`, of the uncompressed key.
  unfoldable pub signer_address_from_public_key : List ℕ → Text
  signer_address_from_public_key serialized =
      let hash = crypto.keccak256 (drop 1 serialized) in
      lit "0x" ++ hex_encode (drop (length hash - 20) hash)

  -- The recovered address if it is the one that the proof names.
  unfoldable pub verify_recovered : AttestationProof → Option (List ℕ) → Option Text
  verify_recovered proof none = none
  verify_recovered proof (some key) =
      let recovered = signer_address_from_public_key key in
      if text_beq recovered (normalize_signer_address proof.signer) then some recovered else none

  -- `verifyProof` (keeper/verify_signature.go); `none` is `ErrInvalidAttestationSignature`.
  unfoldable pub verify_proof : AttestationProof → List ℕ → Option Text
  unfolding verify_recovered
  verify_proof proof digest =
      if is_empty proof.signature
      then none
      else verify_recovered proof (crypto.recover_compact proof.signature digest)

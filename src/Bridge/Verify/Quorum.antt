-- ===== src/Bridge/Verify/Quorum.antt =====
-- What it takes to verify a deposit claim: `verifyDepositClaim`.
use mathlib.Core.List.{Memᴰ}
use aegis_link.Common.{
  ℕ, suc, ◌≤◌, ◌≡◌, refl, ap, true, false, Option, none, some, List, [], ◌∷◌, map, length, arith,
  All, Bool-cases, Option-cases, inl, inr,
}
use aegis_link.Text.{Text, text_beq, text_beq_iff}
use aegis_link.Crypto.{Crypto}
use aegis_link.Bridge.Claim.{DepositClaim, claim_digest}
use aegis_link.Bridge.Attestation.{
  Attestation, AttestationProof, validate_basic, is_seen, signing_digest, verify_proof,
  normalize_signer_address,
}
use aegis_link.Bridge.SignerSet.{SignerSet}
use aegis_link.Bridge.State.{Keeper}
use aegis_link.Bridge.Verify.{active_signer_set, count_verified, verify_with, verify_deposit_claim}

-- No text stands twice.
abbrev pub Distinct : List Text → Type 0
Distinct [] = Unit
Distinct (v ∷ vs) = (is_seen v vs ≡ false) × Distinct vs

fresh-cons :
    (r : Text) (seen vs : List Text)
    → All (λ v. is_seen v (r ∷ seen) ≡ false) vs
    → (is_seen r vs ≡ false) × All (λ v. is_seen v seen ≡ false) vs
unfolding is_seen
fresh-cons r seen [] h = (refl, tt)
fresh-cons r seen (v ∷ vs) (h, hs) =
    ground (arith, text_beq_iff r v, text_beq_iff v r, fresh-cons r seen vs hs)

module _ (crypto : Crypto) where
  -- An allowed signer whose signature of the digest one of the proofs carries.
  pub record IsVoter (allowed : List Text) (digest : List ℕ) (proofs : List AttestationProof)
      (v : Text) : Type 0 where
    pub allowed_signer : is_seen v allowed ≡ true
    pub proof : AttestationProof
    pub listed : Memᴰ proof proofs
    pub signed : verify_proof crypto proof digest ≡ some v

  later :
      (allowed : List Text) (digest : List ℕ) (p : AttestationProof) (ps : List AttestationProof)
      (vs : List Text)
      → All (IsVoter allowed digest ps) vs
      → All (IsVoter allowed digest (p ∷ ps)) vs
  later allowed digest p ps [] h = tt
  later allowed digest p ps (v ∷ vs) (h, hs) = (
    record {
      allowed_signer = h.allowed_signer;
      proof = h.proof;
      listed = Memᴰ.tail h.listed;
      signed = h.signed;
    },
    later allowed digest p ps vs hs,
  )

  -- The voters that the loop counts, none of whom it has seen before.
  record Voters (allowed : List Text) (digest : List ℕ) (seen : List Text)
      (ps : List AttestationProof) (n : ℕ) : Type 0 where
    voters : List Text
    counted : length voters ≡ n
    distinct : Distinct voters
    fresh : All (λ v. is_seen v seen ≡ false) voters
    real : All (IsVoter allowed digest ps) voters

  count-Voters :
      (allowed : List Text) (digest : List ℕ) (seen : List Text) (ps : List AttestationProof)
      → Voters allowed digest seen ps (count_verified crypto allowed digest seen ps)
  unfolding count_verified
  count-Voters allowed digest seen [] = record {
    voters = [];
    counted = refl;
    distinct = tt;
    fresh = tt;
    real = tt;
  }
  count-Voters allowed digest seen (p ∷ ps) = elim (Option-cases (verify_proof crypto p digest)) [
    | inl bad ↦
        let h = count-Voters allowed digest seen ps in
        rw (bad, count_verified)
          (record {
            voters = h.voters;
            counted = h.counted;
            distinct = h.distinct;
            fresh = h.fresh;
            real = later allowed digest p ps h.voters h.real;
          })
    | inr (r, good) ↦
        let skip = count-Voters allowed digest seen ps in
        let h = count-Voters allowed digest (r ∷ seen) ps in
        rw (good, count_verified)
          (elim (Bool-cases (is_seen r seen)) [
            | inl old ↦ rw old (record {
              voters = skip.voters;
              counted = skip.counted;
              distinct = skip.distinct;
              fresh = skip.fresh;
              real = later allowed digest p ps skip.voters skip.real;
            })
            | inr new ↦
                let (apart, fresh) = fresh-cons r seen h.voters h.fresh in
                rw new (elim (Bool-cases (is_seen r allowed)) [
                  | inr other ↦ rw other (record {
                    voters = h.voters;
                    counted = h.counted;
                    distinct = h.distinct;
                    fresh = fresh;
                    real = later allowed digest p ps h.voters h.real;
                  })
                  | inl member ↦ rw member (record {
                    voters = r ∷ h.voters;
                    counted = ap suc h.counted;
                    distinct = (apart, h.distinct);
                    fresh = (new, fresh);
                    real = (
                      record {
                        allowed_signer = member;
                        proof = p;
                        listed = Memᴰ.head refl;
                        signed = good;
                      },
                      later allowed digest p ps h.voters h.real,
                    );
                  })
                ])
          ])
  ]

  -- An attestation that verifies a claim at the keeper's height: the set of signers that is then
  -- active has a quorum of distinct members who signed it, and it is of this claim and in time.
  pub record IsAttested (k : Keeper) (claim : DepositClaim) (a : Attestation) : Type 0 where
    pub well_formed : validate_basic a ≡ none
    pub same_message : claim.identity.message_id ≡ a.message_id
    pub same_payload : claim_digest crypto claim ≡ a.payload_hash
    pub claim_in_time : k.current_height ≤ claim.deadline
    pub attestation_in_time : k.current_height ≤ a.expiry
    pub active : SignerSet
    pub is_active : active_signer_set k ≡ some active
    pub same_version : a.signer_set_version ≡ active.version
    pub voters : List Text
    pub distinct : Distinct voters
    pub quorum : active.threshold ≤ length voters
    pub real :
        All
          (IsVoter (map normalize_signer_address active.signers) (signing_digest crypto a) a.proofs)
          voters

  -- The tests of `verify_with` that pass.
  record HasQuorum (a : Attestation) (active : SignerSet) : Type 0 where
    same_version : a.signer_set_version ≡ active.version
    enough :
        active.threshold
        ≤ count_verified crypto
            (map normalize_signer_address active.signers)
            (signing_digest crypto a)
            []
            a.proofs

  verify_with-HasQuorum :
      (a : Attestation) (s : Option SignerSet)
      → verify_with crypto a s ≡ none
      → (active : SignerSet) × (s ≡ some active) × HasQuorum a active
  unfolding verify_with
  verify_with-HasQuorum a none e = absurd (cc e)
  verify_with-HasQuorum a (some active) e =
      (active, refl, record { same_version = ground arith; enough = ground arith })

  -- The tests of `verify_deposit_claim` that pass.
  record HasPassed (k : Keeper) (claim : DepositClaim) (a : Attestation) : Type 0 where
    same_message : text_beq claim.identity.message_id a.message_id ≡ true
    same_payload : text_beq (claim_digest crypto claim) a.payload_hash ≡ true
    claim_in_time : k.current_height ≤ claim.deadline
    attestation_in_time : k.current_height ≤ a.expiry
    by_quorum : verify_with crypto a (active_signer_set k) ≡ none

  verify-HasPassed :
      (k : Keeper) (claim : DepositClaim) (a : Attestation)
      → validate_basic a ≡ none
      → verify_deposit_claim crypto k claim a ≡ none
      → HasPassed k claim a
  unfolding verify_deposit_claim
  verify-HasPassed k claim a well e = record {
    same_message = ground arith;
    same_payload = ground arith;
    claim_in_time = ground arith;
    attestation_in_time = ground arith;
    by_quorum = ground arith;
  }

  verify_well_formed :
      (k : Keeper) (claim : DepositClaim) (a : Attestation)
      → verify_deposit_claim crypto k claim a ≡ none
      → validate_basic a ≡ none
  unfolding verify_deposit_claim
  verify_well_formed k claim a e = elim (Option-cases (validate_basic a)) [
    | inl well ↦ well
    | inr (f, ill) ↦ absurd (ground arith)
  ]

  -- A deposit claim passes the verification only if it is attested.
  pub verify-IsAttested :
      (k : Keeper) (claim : DepositClaim) (a : Attestation)
      → verify_deposit_claim crypto k claim a ≡ none
      → IsAttested k claim a
  verify-IsAttested k claim a e =
      let well = verify_well_formed k claim a e in
      let p = verify-HasPassed k claim a well e in
      let (active, is_active, q) = verify_with-HasQuorum a (active_signer_set k) p.by_quorum in
      let v =
        count-Voters (map normalize_signer_address active.signers) (signing_digest crypto a) []
          a.proofs in
      let n = v.counted in
      let enough = q.enough in
      record {
        well_formed = well;
        same_message = (text_beq_iff claim.identity.message_id a.message_id).0 p.same_message;
        same_payload = (text_beq_iff (claim_digest crypto claim) a.payload_hash).0 p.same_payload;
        claim_in_time = p.claim_in_time;
        attestation_in_time = p.attestation_in_time;
        active = active;
        is_active = is_active;
        same_version = q.same_version;
        voters = v.voters;
        distinct = v.distinct;
        quorum = omega arith;
        real = v.real;
      }

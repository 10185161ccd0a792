-- ===== src/Relayer/Attestations.antt =====
-- The collection of votes: relayer/internal/attestations/collector.go. The source of the votes is a
-- function of a world; the addresses of the private keys are given, and so is what signs with them.
pub mod Ranking
pub mod Quorum
use aegis_link.Common.{
  ℕ, ◌+◌, ◌-◌, ◌^◌, ◌%◌, suc, zero, Bool, true, false, not, ◌||◌, Option, none, some, List, [], ◌∷◌,
  ◌++◌, length, map, if◌then◌else◌, ltb, nat_beq, is_empty, slice_stable,
}
use aegis_link.Common.Map.{Map, lookup, insert, contains}
use aegis_link.Text.{Text, text_eq, text_beq, trim_space}
use aegis_link.Bridge.Attestation.{Attestation, AttestationProof, normalize_signer_address}
use aegis_link.Bridge.SignerSet.{sort_strings, text_leb}
use aegis_link.Relayer.Services.{Failure, cancelled, threshold_not_met, Answer, answer, failed}

pub record Vote : Type 0 where
  pub signer : Text
  pub expiry : ℕ

-- The private keys stand under the addresses of their signers.
pub record Collector : Type 0 where
  pub connected : Bool
  pub threshold : ℕ
  pub signer_set_version : ℕ
  pub signer_keys : Map Text Text

abbrev pub fallback_synthetic_expiry : ℕ
fallback_synthetic_expiry = 2 ^ 64 - 1

-- The latest expiry of each signer, for the votes that name one.
abbrev pub add_vote : Map Text ℕ → Vote → Map Text ℕ
add_vote unique vote =
    let signer = trim_space vote.signer in
    if text_beq signer [] then unique else elim (lookup signer unique) [
      | none ↦ insert signer vote.expiry unique
      | some expiry ↦ if ltb expiry vote.expiry then insert signer vote.expiry unique else unique
    ]

unfoldable pub tally : Map Text ℕ → List Vote → Map Text ℕ
tally unique [] = unique
tally unique (vote ∷ votes) = tally (add_vote unique vote) votes

unfoldable pub add_keys : Map Text ℕ → Map Text Text → Map Text ℕ
add_keys unique [] = unique
add_keys unique ((signer, key) ∷ keys) =
    add_keys (insert signer fallback_synthetic_expiry unique) keys

-- The votes that count; where there are none, those of the own keys.
unfoldable pub unique_votes : Map Text Text → List Vote → Map Text ℕ
unfolding tally add_keys
unique_votes keys votes =
    let unique = tally [] votes in if is_empty unique then add_keys unique keys else unique

-- By expiry, the latest first, and by signer.
abbrev pub ranks_before : Text × ℕ → Text × ℕ → Bool
ranks_before (s, e) (t, f) = if not (nat_beq e f) then ltb f e else not (text_leb t s)

-- `ranked[:n]`
abbrev pub take {ℓ} : {A : Type ℓ} → ℕ → List A → List A
take zero xs = []
take (suc n) [] = []
take (suc n) (x ∷ xs) = x ∷ take n xs

-- The loop over the ranked votes, for the signers and the expiry of before.
unfoldable pub choose : Map Text Text → List (Text × ℕ) → List Text → ℕ → Option (List Text × ℕ)
choose keys [] signers expiry = some (signers, expiry)
choose keys ((s, e) ∷ ranked) signers expiry =
    let signer = normalize_signer_address s in
    let rest =
      choose keys ranked (signers ++ signer ∷ [])
        (if nat_beq expiry 0 || ltb e expiry then e else expiry) in
    if contains signer keys then rest else none

abbrev pub empty_proof : Text → AttestationProof
empty_proof signer = record { signer = signer; signature = [] }

abbrev pub key_of : Option Text → Text
key_of none = []
key_of (some key) = key

module _ (sign : Attestation → Text → Answer AttestationProof) where
  -- The loop that signs: the proofs that are done, and those that stand in for the others.
  unfoldable pub sign_all :
      Map Text Text
      → Attestation
      → List AttestationProof
      → List AttestationProof
      → List Text
      → Answer Attestation
  sign_all keys attestation done waiting [] =
      answer (record attestation { proofs = done ++ waiting })
  sign_all keys attestation done [] (s ∷ signers) = answer (record attestation { proofs = done })
  sign_all keys attestation done (p ∷ waiting) (s ∷ signers) =
      elim (sign (record attestation { proofs = done ++ p ∷ waiting }) (key_of (lookup s keys))) [
        | failed f ↦ failed f
        | answer proof ↦ sign_all keys attestation (done ++ proof ∷ []) waiting signers
      ]

  -- From the signers that are chosen on.
  unfoldable pub attest : Collector → Text → Text → List Text → ℕ → Answer Attestation
  unfolding sign_all sort_strings
  attest c message_id payload_hash signers expiry =
      let sorted = sort_strings signers in
      let waiting = map empty_proof signers in
      let attestation : Attestation = record {
        message_id = message_id;
        payload_hash = payload_hash;
        signers = sorted;
        proofs = waiting;
        threshold = c.threshold;
        expiry = expiry;
        signer_set_version = c.signer_set_version;
      } in
      sign_all c.signer_keys attestation [] waiting sorted

  -- From the votes on.
  unfoldable pub collect_votes : Collector → Text → Text → List Vote → Answer Attestation
  unfolding attest choose unique_votes slice_stable
  collect_votes c message_id payload_hash votes =
      let unique = unique_votes c.signer_keys votes in
      if nat_beq c.threshold 0 || ltb (length unique % 2 ^ 32) c.threshold
      then failed threshold_not_met
      else elim (choose c.signer_keys (take c.threshold (slice_stable ranks_before unique)) [] 0) [
        | none ↦ failed threshold_not_met
        | some (signers, expiry) ↦ attest c message_id payload_hash signers expiry
      ]

  -- `Collect`, with the source of the votes and the context.
  unfoldable pub collect :
      {W : Type 0}
      → (W → Bool)
      → (W → Text → Text → W × Answer (List Vote))
      → Collector
      → W
      → Text
      → Text
      → W × Answer Attestation
  unfolding collect_votes
  collect is_cancelled source c w message_id payload_hash =
      if not c.connected
      then (w, failed threshold_not_met)
      else if is_cancelled w
      then (w, failed cancelled)
      else let (asked, answered) = source w message_id payload_hash in
        elim answered [
          | failed f ↦ (asked, failed f)
          | answer votes ↦ (asked, collect_votes c message_id payload_hash votes)
        ]

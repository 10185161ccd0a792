-- ===== src/Relayer/Attestations/Quorum.antt =====
-- What an attestation stands on that relayer/internal/attestations/collector.go collects.
use aegis_link.Common.{ℕ, ◌≤◌, ◌≡◌, ◌⊎◌, true, List, [], ◌∷◌, length, All, is_empty}
use aegis_link.Common.Map.{Map}
use aegis_link.Text.{Text, text_eq, trim_space}
use aegis_link.Bridge.Attestation.{Attestation}
use aegis_link.Bridge.SignerSet.{sort_strings}
use aegis_link.Relayer.Attestations.{Vote, Collector, tally}
use aegis_link.Relayer.Attestations.Ranking.{IsChosen, addresses}

-- A vote of a signer with an expiry is among the votes.
pub data HasVote (s : Text) (e : ℕ) : List Vote → Type 0 where
  here :
      {v : Vote} {votes : List Vote}
      → trim_space v.signer ≡ s
      → v.expiry ≡ e
      → HasVote s e (v ∷ votes)
  there : {v : Vote} {votes : List Vote} → HasVote s e votes → HasVote s e (v ∷ votes)

-- An entry is a vote, or there are no votes that count.
abbrev pub IsVoted : List Vote → Text × ℕ → Type 0
IsVoted votes (s, e) = HasVote s e votes ⊎ (is_empty (tally [] votes) ≡ true)

-- What an attestation stands on: as many votes as the threshold, by signers that have a key.
pub record IsCollected (c : Collector) (message_id payload_hash : Text) (votes : List Vote)
    (a : Attestation) : Type 0 where
  pub chosen : List (Text × ℕ)
  pub quorum : length chosen ≡ c.threshold
  pub positive : 1 ≤ c.threshold
  pub signers : a.signers ≡ sort_strings (addresses chosen)
  pub keyed : All (IsChosen c.signer_keys a.expiry) chosen
  pub voted : All (IsVoted votes) chosen
  pub of_message : a.message_id ≡ message_id
  pub of_payload : a.payload_hash ≡ payload_hash
  pub of_threshold : a.threshold ≡ c.threshold
  pub of_set : a.signer_set_version ≡ c.signer_set_version

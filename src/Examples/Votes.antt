-- ===== src/Examples/Votes.antt =====
-- A collector with one key.
use aegis_link.Common.{ℕ, ◌≡◌, refl, true, List, [], ◌∷◌}
use aegis_link.Text.{Text, lit}
use aegis_link.Bridge.Attestation.{Attestation, AttestationProof}
use aegis_link.Relayer.Services.{Answer, answer, failed, threshold_not_met}
use aegis_link.Relayer.Attestations.{Vote, Collector, collect_votes}

abbrev sign : Attestation → Text → Answer AttestationProof
sign a key = answer (record { signer = lit "0xaa"; signature = key })

abbrev collector : Collector
collector = record {
  connected = true;
  threshold = 1;
  signer_set_version = 1;
  signer_keys = (lit "0xaa", 7 ∷ []) ∷ [];
}

abbrev votes : List Vote
votes =
    record { signer = lit " 0xAA "; expiry = 40 } ∷ record { signer = lit "0xaa"; expiry = 30 } ∷ []

abbrev collected : Attestation
collected = record {
  message_id = lit "m";
  payload_hash = lit "h";
  signers = lit "0xaa" ∷ [];
  proofs = record { signer = lit "0xaa"; signature = 7 ∷ [] } ∷ [];
  threshold = 1;
  expiry = 40;
  signer_set_version = 1;
}

-- A vote of a signer without a key, with a later expiry, takes the only place.
stranger_blocks :
    collect_votes sign collector
      (lit "m")
      (lit "h")
      (record { signer = lit "0xbb"; expiry = 99 } ∷ votes)
    ≡ failed threshold_not_met
unfolding collect_votes aegis_link.Text.text_beq aegis_link.Text.trim_space
    aegis_link.Common.Map.lookup aegis_link.Common.Map.insert
    aegis_link.Bridge.Attestation.normalize_signer_address aegis_link.Text.to_lower
stranger_blocks = refl

abbrev of_two : Collector
of_two = record collector { threshold = 2 }

abbrev doubled : Attestation
doubled = record {
  message_id = lit "m";
  payload_hash = lit "h";
  signers = lit "0xaa" ∷ lit "0xaa" ∷ [];
  proofs =
      record { signer = lit "0xaa"; signature = 7 ∷ [] }
      ∷ record { signer = lit "0xaa"; signature = 7 ∷ [] }
      ∷ [];
  threshold = 2;
  expiry = 30;
  signer_set_version = 1;
}

-- Two spellings of one address count as two votes.
spelled_twice : collect_votes sign of_two (lit "m") (lit "h") votes ≡ answer doubled
unfolding collect_votes aegis_link.Text.text_beq aegis_link.Text.trim_space
    aegis_link.Common.Map.lookup aegis_link.Common.Map.insert
    aegis_link.Bridge.Attestation.normalize_signer_address aegis_link.Text.to_lower
spelled_twice = refl

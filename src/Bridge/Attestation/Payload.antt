-- ===== src/Bridge/Attestation/Payload.antt =====
-- The payload that signers sign determines the fields it is made of.
use mathlib.Core.List.{append_assoc}
use aegis_link.Common.{ℕ, ◌≡◌, refl, sym, ap, ◌∙◌, List, [], ◌∷◌, ◌++◌, length, append-inj, arith}
use aegis_link.Text.{Text, trim_space, to_lower}
use aegis_link.Codec.{decimal}
use aegis_link.Codec.Digits.{cut_after-decimal, cut-inj, decimal-inj}
use aegis_link.Crypto.{Crypto}
use aegis_link.Bridge.Attestation.{
  Attestation, encoded_field, join_fields, signing_fields, signing_digest,
}

-- A field before what follows it.
encoded_field-inj :
    (f g u v : Text) → encoded_field f ++ u ≡ encoded_field g ++ v → (f ≡ g) × (u ≡ v)
unfolding encoded_field
encoded_field-inj f g u v e =
    let e' =
      sym (append_assoc (decimal (length f)) (0x3a ∷ f) u)
      ∙ e
      ∙ append_assoc (decimal (length g)) (0x3a ∷ g) v in
    let no_colon = λ (n : ℕ). cut_after-decimal 0x3a n (λ d h q. omega arith) in
    let (digits, rest) =
      cut-inj 0x3a (decimal (length f)) (decimal (length g)) (f ++ u) (g ++ v) (no_colon (length f))
        (no_colon (length g)) e' in
    append-inj f g u v (decimal-inj (length f) (length g) digits) rest

-- Two lists of as many fields with the same text are one.
pub join_fields-inj :
    (fs gs : List Text) → length fs ≡ length gs → join_fields fs ≡ join_fields gs → fs ≡ gs
unfolding join_fields
join_fields-inj [] [] n e = refl
join_fields-inj [] (g ∷ gs) n e = absurd (omega arith)
join_fields-inj (f ∷ fs) [] n e = absurd (omega arith)
join_fields-inj (f ∷ []) (g ∷ []) n e =
    let (p, q) = encoded_field-inj f g [] [] (ap (λ x. x ++ []) e) in ap (λ x. x ∷ []) p
join_fields-inj (f ∷ []) (g ∷ g' ∷ gs) n e = absurd (omega arith)
join_fields-inj (f ∷ f' ∷ fs) (g ∷ []) n e = absurd (omega arith)
join_fields-inj (f ∷ f' ∷ fs) (g ∷ g' ∷ gs) n e =
    let (p, q) =
      encoded_field-inj f g (0x7c ∷ join_fields (f' ∷ fs)) (0x7c ∷ join_fields (g' ∷ gs)) e in
    let n' : length (f' ∷ fs) ≡ length (g' ∷ gs) = omega arith in
    let rest = join_fields-inj (f' ∷ fs) (g' ∷ gs) n' (cc) in cc (p, rest)

-- Two attestations that a signature binds to the same: up to white space, and letter case of the
-- payload's hash.
pub record IsSamePayload (a b : Attestation) : Type 0 where
  pub message_id : trim_space a.message_id ≡ trim_space b.message_id
  pub payload_hash : to_lower (trim_space a.payload_hash) ≡ to_lower (trim_space b.payload_hash)
  pub threshold : a.threshold ≡ b.threshold
  pub expiry : a.expiry ≡ b.expiry
  pub signer_set_version : a.signer_set_version ≡ b.signer_set_version

-- If the hash does not collide on their payloads, two attestations with the same digest to sign
-- have the same message, payload hash, threshold, expiry and version of the signer set, up to white
-- space around the texts and the letter case of the hash.
pub signing_digest-inj :
    (crypto : Crypto) (a b : Attestation)
    → (crypto.keccak256 (join_fields (signing_fields a))
          ≡ crypto.keccak256 (join_fields (signing_fields b))
        → join_fields (signing_fields a) ≡ join_fields (signing_fields b))
    → signing_digest crypto a ≡ signing_digest crypto b
    → IsSamePayload a b
unfolding signing_digest signing_fields
signing_digest-inj crypto a b no_collision e =
    let same = join_fields-inj (signing_fields a) (signing_fields b) refl (no_collision e) in
    record {
      message_id = cc same;
      payload_hash = cc same;
      threshold = decimal-inj a.threshold b.threshold (cc same);
      expiry = decimal-inj a.expiry b.expiry (cc same);
      signer_set_version = decimal-inj a.signer_set_version b.signer_set_version (cc same);
    }

-- ===== src/Bridge/Keeper/Replay.antt =====
-- A claim that has been accepted is never accepted again: `processedClaims`.
use aegis_link.Common.{
  ℕ, ◌≡◌, refl, sym, ap, ◌∙◌, false, Option, none, some, List, [], inl, inr, ◌⊎◌, Option-cases,
}
use aegis_link.Common.Int.{ℤ}
use aegis_link.Common.Map.{lookup, lookup-insert_ne, lookup-insert_self}
use aegis_link.Text.{Text, text_eq}
use aegis_link.Errors.{Error, duplicate_claim}
use aegis_link.Crypto.{Crypto}
use aegis_link.Limits.{clone_big_int}
use aegis_link.Registry.{Asset}
use aegis_link.Bridge.Claim.{DepositClaim, replay_key, deposit_validate_basic}
use aegis_link.Bridge.Attestation.{Attestation}
use aegis_link.Bridge.SignerSet
use aegis_link.Bridge.SignerSet.{SignerSet}
use aegis_link.Bridge.State.{
  Keeper, ClaimRecord, set_current_height, bridge_denom_for_asset, ensure_circuit_healthy,
}
use aegis_link.Bridge.Verify.{upsert_signer_set}
use aegis_link.Bridge.Accounting.{accept_deposit_claim, accepted_record}
use aegis_link.Bridge.Keeper.{Claimed, reject, execute_deposit_claim, execute_withdrawal}
use aegis_link.Bridge.Keeper.Cases.{spent, execute_deposit_claim-cases}
use aegis_link.Bridge.Keeper.Withdraw.{execute_withdrawal-cases}
use aegis_link.Bridge.Keeper.Invariant.{
  Step, Steps, IsSafe, deposit, withdrawal, set_height, upsert, register, switch, limit, pause,
  unpause, done, step, step-IsSafe, Steps-IsSafe,
}

-- The claim under a key has been processed, with this record.
abbrev pub IsProcessed : Keeper → Text → ClaimRecord → Type 0
IsProcessed k key c = lookup key k.processed_claims ≡ some c

accept-IsProcessed :
    (k : Keeper) (key : Text) (claim : DepositClaim) (asset : Asset)
    → IsProcessed
        (accept_deposit_claim k key claim asset).0
        key
        (accepted_record claim (bridge_denom_for_asset asset))
unfolding accept_deposit_claim
accept-IsProcessed k key claim asset = lookup-insert_self key _ k.processed_claims

accept_other :
    (k : Keeper) (key : Text) (claim : DepositClaim) (asset : Asset) (old : Text) (c : ClaimRecord)
    → lookup key k.processed_claims ≡ none
    → IsProcessed k old c
    → IsProcessed (accept_deposit_claim k key claim asset).0 old c
unfolding accept_deposit_claim
accept_other k key claim asset old c fresh p =
    lookup-insert_ne key old _ k.processed_claims
      (λ e. cc (sym fresh ∙ ap (λ j. lookup j k.processed_claims) e ∙ p))
    ∙ p

deposit-IsProcessed :
    (crypto : Crypto) (k : Keeper) (claim : DepositClaim) (attestation : Attestation)
    → IsSafe k
    → (old : Text) (c : ClaimRecord) → IsProcessed k old c
    → IsProcessed (execute_deposit_claim crypto k claim attestation).0 old c
deposit-IsProcessed crypto k claim attestation h old c p =
    elim (execute_deposit_claim-cases crypto k claim attestation h.kept) [
      | inl (e, id, rejected) ↦ rw rejected p
      | inr (passed, d) ↦ rw d.leaves (
          accept_other (spent k claim.asset_id (clone_big_int claim.amount))
            (replay_key crypto claim.identity) claim d.asset old c passed.fresh p)
    ]

withdrawal-IsProcessed :
    (crypto : Crypto) (k : Keeper) (id : Text) (amount : Option ℤ) (recipient : Text) (deadline : ℕ)
    (signature : List ℕ)
    → IsSafe k
    → (old : Text) (c : ClaimRecord) → IsProcessed k old c
    → IsProcessed (execute_withdrawal crypto k id amount recipient deadline signature).0 old c
withdrawal-IsProcessed crypto k id amount recipient deadline signature h old c p =
    elim (execute_withdrawal-cases crypto k id amount recipient deadline signature h.kept) [
      | inl (e, refused) ↦ rw refused p
      | inr (inl u) ↦ rw u.leaves p
      | inr (inr (closed, tested, w)) ↦ rw w.leaves p
    ]

upsert-IsProcessed :
    (k : Keeper) (set : SignerSet) (old : Text) (c : ClaimRecord)
    → IsProcessed k old c
    → IsProcessed (upsert_signer_set k set).0 old c
unfolding upsert_signer_set
upsert-IsProcessed k set old c p = elim (Option-cases (SignerSet.validate_basic set)) [
  | inr (e, refused) ↦ rw (refused, upsert_signer_set) p
  | inl fine ↦ rw (fine, upsert_signer_set) p
]

-- No call forgets or rewrites a processed claim.
step-IsProcessed :
    (crypto : Crypto) (k k' : Keeper)
    → Step crypto k k'
    → IsSafe k
    → (old : Text) (c : ClaimRecord) → IsProcessed k old c
    → IsProcessed k' old c
unfolding set_current_height
step-IsProcessed crypto k _ (deposit _ claim attestation) h =
    deposit-IsProcessed crypto k claim attestation h
step-IsProcessed crypto k _ (withdrawal _ id amount recipient deadline signature) h =
    withdrawal-IsProcessed crypto k id amount recipient deadline signature h
step-IsProcessed crypto k _ (set_height _ height) h = λ old c p. p
step-IsProcessed crypto k _ (upsert _ set) h = upsert-IsProcessed k set
step-IsProcessed crypto k _ (register _ x) h = λ old c p. p
step-IsProcessed crypto k _ (switch _ id on) h = λ old c p. p
step-IsProcessed crypto k _ (limit _ l) h = λ old c p. p
step-IsProcessed crypto k _ (pause _ flow) h = λ old c p. p
step-IsProcessed crypto k _ (unpause _ flow) h = λ old c p. p

Steps-IsProcessed :
    (crypto : Crypto) (k k' : Keeper)
    → Steps crypto k k'
    → IsSafe k
    → (old : Text) (c : ClaimRecord) → IsProcessed k old c
    → IsProcessed k' old c
Steps-IsProcessed crypto k _ (done _) h old c p = p
Steps-IsProcessed crypto k k' (step _ k₁ _ one more) h old c p =
    Steps-IsProcessed crypto k₁ k' more (step-IsSafe crypto k k₁ one h) old c
      (step-IsProcessed crypto k k₁ one h old c p)

-- An accepted deposit's claim is processed.
deposit_accepted :
    (crypto : Crypto) (k : Keeper) (claim : DepositClaim) (attestation : Attestation)
    → IsSafe k
    → (execute_deposit_claim crypto k claim attestation).2 ≡ none
    → (c : ClaimRecord) × IsProcessed
        (execute_deposit_claim crypto k claim attestation).0
        (replay_key crypto claim.identity)
        c
deposit_accepted crypto k claim attestation h accepted =
    elim (execute_deposit_claim-cases crypto k claim attestation h.kept) [
      | inl (e, id, rejected) ↦ absurd (cc (sym accepted ∙ ap (λ (x : Claimed). x.2) rejected))
      | inr (passed, d) ↦ (
        accepted_record claim (bridge_denom_for_asset d.asset),
        rw d.leaves (
            accept-IsProcessed (spent k claim.asset_id (clone_big_int claim.amount))
              (replay_key crypto claim.identity) claim d.asset),
      )
    ]

healthy : (k : Keeper) → k.circuit_breaker_tripped ≡ false → ensure_circuit_healthy k ≡ none
unfolding ensure_circuit_healthy
healthy k running = rw running

-- What `ExecuteDepositClaim` makes of a claim whose key is taken, while the circuit breaker has not
-- tripped.
execute_processed :
    (crypto : Crypto) (k : Keeper) (claim : DepositClaim) (attestation : Attestation)
    (c : ClaimRecord)
    → k.circuit_breaker_tripped ≡ false
    → IsProcessed k (replay_key crypto claim.identity) c
    → let again = execute_deposit_claim crypto k claim attestation in
      ((deposit_validate_basic crypto claim ≡ none)
        × (again ≡ reject k claim.identity.message_id duplicate_claim))
      ⊎ ((e : Error) × (deposit_validate_basic crypto claim ≡ some e) × (again ≡ reject k [] e))
unfolding execute_deposit_claim
execute_processed crypto k claim attestation c running p =
    rw (healthy k running, execute_deposit_claim)
      (elim (Option-cases (deposit_validate_basic crypto claim)) [
        | inr (e, ill) ↦ rw (ill, execute_deposit_claim) (inr (e, refl, refl))
        | inl well ↦
            rw (well, execute_deposit_claim) (rw (p, execute_deposit_claim) (inl (refl, refl)))
      ])

-- After a deposit has been accepted, and after any calls that follow, a claim with the same replay
-- key is rejected as a duplicate, or as malformed; but for the counter of rejections, nothing
-- changes.
pub deposit_once :
    (crypto : Crypto) (k : Keeper) (claim : DepositClaim) (attestation : Attestation)
    → IsSafe k
    → (execute_deposit_claim crypto k claim attestation).2 ≡ none
    → (k' : Keeper) → Steps crypto (execute_deposit_claim crypto k claim attestation).0 k'
    → (again : DepositClaim) (attestation' : Attestation)
    → replay_key crypto again.identity ≡ replay_key crypto claim.identity
    → let result = execute_deposit_claim crypto k' again attestation' in
      ((deposit_validate_basic crypto again ≡ none)
        × (result ≡ reject k' again.identity.message_id duplicate_claim))
      ⊎ ((e : Error) × (deposit_validate_basic crypto again ≡ some e) × (result ≡ reject k' [] e))
deposit_once crypto k claim attestation h accepted k' steps again attestation' same =
    let k₁ = (execute_deposit_claim crypto k claim attestation).0 in
    let h₁ = step-IsSafe crypto k k₁ (deposit k claim attestation) h in
    let (c, p) = deposit_accepted crypto k claim attestation h accepted in
    let p' = Steps-IsProcessed crypto k₁ k' steps h₁ (replay_key crypto claim.identity) c p in
    execute_processed crypto k' again attestation' c (Steps-IsSafe crypto k₁ k' steps h₁).running
      (ap (λ key. lookup key k'.processed_claims) same ∙ p')

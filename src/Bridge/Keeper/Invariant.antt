-- ===== src/Bridge/Keeper/Invariant.antt =====
-- The steps that change the bridge keeper or the keepers it shares, and what holds after any number
-- of them.
use aegis_link.Common.{
  ℕ, ◌≡◌, refl, ap, ◌∙◌, Bool, false, Option, List, arith, inl, inr, Option-cases,
}
use aegis_link.Common.Int.{ℤ, int_laws}
use aegis_link.Common.Map.{lookup}
use aegis_link.Text.{Text, text_eq}
use aegis_link.Crypto.{Crypto}
use aegis_link.Limits
use aegis_link.Limits.{RateLimit, clone_big_int}
use aegis_link.Pauser
use aegis_link.Registry
use aegis_link.Registry.{Asset}
use aegis_link.Registry.Stable.{register-Keeps, set_asset_enabled-Keeps}
use aegis_link.Bridge.Claim.{DepositClaim, replay_key}
use aegis_link.Bridge.Attestation.{Attestation}
use aegis_link.Bridge.SignerSet
use aegis_link.Bridge.SignerSet.{SignerSet}
use aegis_link.Bridge.State.{Keeper, new_keeper, set_current_height}
use aegis_link.Bridge.Verify.{upsert_signer_set}
use aegis_link.Bridge.Accounting.{accept_deposit_claim}
use aegis_link.Bridge.Accounting.Check.{IsKept}
use aegis_link.Bridge.Accounting.Sums.{claimed, withdrawn}
use aegis_link.Bridge.Keeper.{Claimed, execute_deposit_claim, execute_withdrawal}
use aegis_link.Bridge.Keeper.Books.{registry-IsKept}
use aegis_link.Bridge.Keeper.Cases.{spent, execute_deposit_claim-cases}
use aegis_link.Bridge.Keeper.Withdraw.{execute_withdrawal-cases}

module _ (crypto : Crypto) where
  -- One call, whatever its arguments and whether or not it is refused.
  pub data Step : Keeper → Keeper → Type 0 where
    deposit :
        (k : Keeper) (claim : DepositClaim) (attestation : Attestation)
        → Step k (execute_deposit_claim crypto k claim attestation).0
    withdrawal :
        (k : Keeper) (id : Text) (amount : Option ℤ) (recipient : Text) (deadline : ℕ)
        (signature : List ℕ)
        → Step k (execute_withdrawal crypto k id amount recipient deadline signature).0
    set_height : (k : Keeper) (height : ℕ) → Step k (set_current_height k height)
    upsert : (k : Keeper) (set : SignerSet) → Step k (upsert_signer_set k set).0
    register :
        (k : Keeper) (x : Asset)
        → Step k (record k { registry_keeper = (Registry.register_asset k.registry_keeper x).0 })
    switch :
        (k : Keeper) (id : Text) (on : Bool)
        → Step k
            (record k { registry_keeper = (Registry.set_asset_enabled k.registry_keeper id on).0 })
    limit :
        (k : Keeper) (l : RateLimit)
        → Step k (record k { limits_keeper = (Limits.set_limit k.limits_keeper l).0 })
    pause :
        (k : Keeper) (flow : Text)
        → Step k (record k { pauser_keeper = (Pauser.pause k.pauser_keeper flow).0 })
    unpause :
        (k : Keeper) (flow : Text)
        → Step k (record k { pauser_keeper = (Pauser.unpause k.pauser_keeper flow).0 })

  -- Any number of calls.
  pub data Steps : Keeper → Keeper → Type 0 where
    done : (k : Keeper) → Steps k k
    step : (k k' k'' : Keeper) → Step k k' → Steps k' k'' → Steps k k''

-- The books are kept and the circuit breaker has not tripped.
pub record IsSafe (k : Keeper) : Type 0 where
  pub kept : IsKept k
  pub running : k.circuit_breaker_tripped ≡ false

-- A keeper that differs in nothing that the books are about.
same_books :
    (k k' : Keeper)
    → IsSafe k
    → k'.supply_by_denom ≡ k.supply_by_denom
    → k'.withdrawals ≡ k.withdrawals
    → k'.processed_claims ≡ k.processed_claims
    → k'.registry_keeper ≡ k.registry_keeper
    → k'.circuit_breaker_tripped ≡ k.circuit_breaker_tripped
    → IsSafe k'
same_books k k' h e₁ e₂ e₃ e₄ e₅ =
    let kept = h.kept in
    record {
      kept = record {
        one_entry = rw e₁ kept.one_entry;
        supply_nonneg = rw e₁ kept.supply_nonneg;
        booked = rw (e₂, e₄) kept.booked;
        balanced = rw (e₁, e₂, e₃, e₄) kept.balanced;
      };
      running = e₅ ∙ h.running;
    }

accept-running :
    (k : Keeper) (key : Text) (claim : DepositClaim) (asset : Asset)
    → (accept_deposit_claim k key claim asset).0.circuit_breaker_tripped ≡ k.circuit_breaker_tripped
unfolding accept_deposit_claim
accept-running k key claim asset = refl

module _ (crypto : Crypto) (k : Keeper) (h : IsSafe k) where
  deposit-IsSafe :
      (claim : DepositClaim) (attestation : Attestation)
      → IsSafe (execute_deposit_claim crypto k claim attestation).0
  deposit-IsSafe claim attestation =
      elim (execute_deposit_claim-cases crypto k claim attestation h.kept) [
        | inl (e, id, rejected) ↦ rw rejected (same_books k _ h refl refl refl refl refl)
        | inr (passed, c) ↦ record {
          kept = c.kept;
          running =
              ap (λ (x : Claimed). x.0.circuit_breaker_tripped) c.leaves
              ∙ accept-running (spent k claim.asset_id (clone_big_int claim.amount))
                  (replay_key crypto claim.identity) claim c.asset
              ∙ h.running;
        }
      ]

  withdrawal-IsSafe :
      (id : Text) (amount : Option ℤ) (recipient : Text) (deadline : ℕ) (signature : List ℕ)
      → IsSafe (execute_withdrawal crypto k id amount recipient deadline signature).0
  withdrawal-IsSafe id amount recipient deadline signature =
      elim (execute_withdrawal-cases crypto k id amount recipient deadline signature h.kept) [
        | inl (e, refused) ↦ rw refused h
        | inr (inl u) ↦ rw u.leaves (same_books k _ h refl refl refl refl refl)
        | inr (inr (closed, tested, w)) ↦ record {
          kept = w.kept;
          running = ap (λ x. x.0.circuit_breaker_tripped) w.leaves ∙ h.running;
        }
      ]

  upsert-IsSafe : (set : SignerSet) → IsSafe (upsert_signer_set k set).0
  unfolding upsert_signer_set
  upsert-IsSafe set = elim (Option-cases (SignerSet.validate_basic set)) [
    | inr (e, refused) ↦ rw (refused, upsert_signer_set) h
    | inl fine ↦ rw (fine, upsert_signer_set) (same_books k _ h refl refl refl refl refl)
  ]

-- No call breaks the books or trips the circuit breaker.
pub step-IsSafe : (crypto : Crypto) (k k' : Keeper) → Step crypto k k' → IsSafe k → IsSafe k'
unfolding set_current_height
step-IsSafe crypto k _ (deposit _ claim attestation) h = deposit-IsSafe crypto k h claim attestation
step-IsSafe crypto k _ (withdrawal _ id amount recipient deadline signature) h =
    withdrawal-IsSafe crypto k h id amount recipient deadline signature
step-IsSafe crypto k _ (set_height _ height) h = same_books k _ h refl refl refl refl refl
step-IsSafe crypto k _ (upsert _ set) h = upsert-IsSafe crypto k h set
step-IsSafe crypto k _ (register _ x) h = record {
  kept = registry-IsKept k _ (register-Keeps k.registry_keeper x) h.kept;
  running = h.running;
}
step-IsSafe crypto k _ (switch _ id on) h = record {
  kept = registry-IsKept k _ (set_asset_enabled-Keeps k.registry_keeper id on) h.kept;
  running = h.running;
}
step-IsSafe crypto k _ (limit _ l) h = same_books k _ h refl refl refl refl refl
step-IsSafe crypto k _ (pause _ flow) h = same_books k _ h refl refl refl refl refl
step-IsSafe crypto k _ (unpause _ flow) h = same_books k _ h refl refl refl refl refl

-- From a keeper whose books are kept and whose breaker has not tripped, no calls lead to one that
-- is not so.
pub Steps-IsSafe : (crypto : Crypto) (k k' : Keeper) → Steps crypto k k' → IsSafe k → IsSafe k'
Steps-IsSafe crypto k _ (done _) h = h
Steps-IsSafe crypto k k' (step _ k₁ _ one more) h =
    Steps-IsSafe crypto k₁ k' more (step-IsSafe crypto k k₁ one h)

pub new_keeper-IsSafe :
    (registry : Registry.Keeper) (limits : Limits.Keeper) (pauser : Pauser.Keeper)
    (signers : List Text) (threshold : ℕ)
    → IsSafe (new_keeper registry limits pauser signers threshold)
unfolding new_keeper lookup claimed withdrawn
new_keeper-IsSafe registry limits pauser signers threshold = record {
  kept = record {
    one_entry = tt;
    supply_nonneg = λ d. omega arith;
    booked = tt;
    balanced = λ d. omega int_laws;
  };
  running = refl;
}

-- From a new keeper, whatever the registry, the limits, the pauses and the signers, no calls in any
-- order and with any arguments break the books or trip the circuit breaker.
pub reachable-IsSafe :
    (crypto : Crypto) (registry : Registry.Keeper) (limits : Limits.Keeper) (pauser : Pauser.Keeper)
    (signers : List Text) (threshold : ℕ) (k : Keeper)
    → Steps crypto (new_keeper registry limits pauser signers threshold) k
    → IsSafe k
reachable-IsSafe crypto registry limits pauser signers threshold k steps =
    Steps-IsSafe crypto _ k steps (new_keeper-IsSafe registry limits pauser signers threshold)

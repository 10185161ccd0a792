-- ===== src/Bridge/Keeper/Cases.antt =====
-- The two ways in which an operation of the bridge ends, on books that are kept.
use aegis_link.Common.{
  ◌≡◌, refl, sym, ap, ◌∙◌, true, Option, none, some, [], arith, Bool-cases, inl, inr, Option-cases,
  ◌⊎◌,
}
use mathlib.Core.Path.{subst}
use aegis_link.Common.Int.{ℤ}
use aegis_link.Common.Map.{lookup}
use aegis_link.Text.{Text, text_eq}
use aegis_link.Errors.{Error, ok, Result-cases}
use aegis_link.Crypto.{Crypto}
use aegis_link.Limits
use aegis_link.Limits.{clone_big_int, not_positive}
use aegis_link.Limits.Window.{HasRoom, check-none_iff, record-HasRoom}
use aegis_link.Pauser
use aegis_link.Registry.{Asset, get_asset}
use aegis_link.Bridge.Claim.{DepositClaim, deposit_validate_basic, replay_key}
use aegis_link.Bridge.Attestation.{Attestation}
use aegis_link.Bridge.State.{Keeper, ensure_circuit_healthy}
use aegis_link.Bridge.Verify.{verify_deposit_claim}
use aegis_link.Bridge.Accounting.{accept_deposit_claim, check_accounting_invariant}
use aegis_link.Bridge.Accounting.Check.{IsKept, check-IsKept}
use aegis_link.Bridge.Keeper.{
  Claimed, reject, usable_asset, spend_limit, claim_asset, execute_deposit_claim, settle_claim,
}
use aegis_link.Bridge.Keeper.Books.{accept-IsKept}

-- An asset that can be transferred: it is registered and enabled, and no pause stands on it.
pub record IsUsable (k : Keeper) (id : Text) (asset : Asset) : Type 0 where
  pub registered : get_asset k.registry_keeper id ≡ some asset
  pub enabled : asset.enabled ≡ true
  pub running : Pauser.assert_not_paused k.pauser_keeper id ≡ none

pub usable_asset-ok :
    (k : Keeper) (id : Text) (asset : Asset) → usable_asset k id ≡ ok asset → IsUsable k id asset
unfolding usable_asset
usable_asset-ok k id asset e = elim (Option-cases (get_asset k.registry_keeper id)) [
  | inl missing ↦ absurd (ground arith)
  | inr (a, found) ↦ elim (Bool-cases a.enabled) [
    | inr off ↦ absurd (ground arith)
    | inl on ↦ elim (Option-cases (Pauser.assert_not_paused k.pauser_keeper id)) [
      | inr (f, paused) ↦ absurd (ground arith)
      | inl running ↦
          let same : a ≡ asset = ground arith in
          record {
            registered = found ∙ ap (λ x. some x) same;
            enabled = ap (λ (x : Asset). x.enabled) (sym same) ∙ on;
            running = running;
          }
    ]
  ]
]

-- The keeper after its rate limit has counted an amount.
abbrev pub spent : Keeper → Text → ℤ → Keeper
spent k id a = record k {
  limits_keeper = (Limits.record_transfer_at_height k.limits_keeper id (some a) k.current_height).0;
}

pub spend_limit-some :
    (k : Keeper) (id : Text) (a : ℤ) (k' : Keeper)
    → spend_limit k id (some a) ≡ ok k'
    → HasRoom k.limits_keeper id a k.current_height × (k' ≡ spent k id a)
unfolding spend_limit
spend_limit-some k id a k' e =
    elim (Option-cases
      (Limits.check_transfer_at_height k.limits_keeper id (some a) k.current_height)) [
        | inr (f, stopped) ↦ absurd (ground arith)
        | inl passes ↦
            let room = (check-none_iff k.limits_keeper id a k.current_height).0 passes in
            (room, ground (arith, record-HasRoom k.limits_keeper id a k.current_height room))
      ]

spend_limit-ok :
    (k : Keeper) (id : Text) (amount : Option ℤ) (k' : Keeper)
    → spend_limit k id amount ≡ ok k'
    → (amount ≡ some (clone_big_int amount))
      × HasRoom k.limits_keeper id (clone_big_int amount) k.current_height
      × (k' ≡ spent k id (clone_big_int amount))
spend_limit-ok k id none k' e =
    absurd (unfold spend_limit Limits.check_transfer_at_height in ground arith)
spend_limit-ok k id (some a) k' e =
    let (room, same) = spend_limit-some k id a k' e in (refl, room, same)

pub spent-IsKept : (k : Keeper) (id : Text) (a : ℤ) → IsKept k → IsKept (spent k id a)
spent-IsKept k id a h = record {
  one_entry = h.one_entry;
  supply_nonneg = h.supply_nonneg;
  booked = h.booked;
  balanced = h.balanced;
}

-- What a deposit that is accepted has passed from the asset on, and what it leaves.
pub record IsClaimed (k : Keeper) (key : Text) (claim : DepositClaim) (done : Claimed)
    : Type 0 where
  pub asset : Asset
  pub usable : IsUsable k claim.asset_id asset
  pub known : claim.amount ≡ some (clone_big_int claim.amount)
  pub room : HasRoom k.limits_keeper claim.asset_id (clone_big_int claim.amount) k.current_height
  pub leaves :
      let accepted =
        accept_deposit_claim
          (spent k claim.asset_id (clone_big_int claim.amount))
          key
          claim
          asset in
      done ≡ (accepted.0, accepted.1, none)
  pub kept : IsKept done.0

-- From the asset on, a claim under a key that is free is rejected or goes through.
claim_asset-cases :
    (k : Keeper) (key : Text) (claim : DepositClaim)
    → IsKept k
    → lookup key k.processed_claims ≡ none
    → ((e : Error) × (claim_asset k key claim ≡ reject k claim.identity.message_id e))
      ⊎ IsClaimed k key claim (claim_asset k key claim)
unfolding claim_asset settle_claim
claim_asset-cases k key claim h fresh = elim (Result-cases (usable_asset k claim.asset_id)) [
  | inr (e, stopped) ↦ rw (stopped, claim_asset) (inl (e, refl))
  | inl (asset, found) ↦
      rw (found, claim_asset)
        (elim (Result-cases (spend_limit k claim.asset_id claim.amount)) [
          | inr (e, stopped) ↦ rw (stopped, claim_asset) (inl (e, refl))
          | inl (k₁, spends) ↦
              let (known, room, same) = spend_limit-ok k claim.asset_id claim.amount k₁ spends in
              let a = clone_big_int claim.amount in
              let accepted = accept_deposit_claim (spent k claim.asset_id a) key claim asset in
              let kept : IsKept accepted.0 =
                accept-IsKept (spent k claim.asset_id a) key claim asset
                  (spent-IsKept k claim.asset_id a h) fresh room.nonneg in
              let settled : settle_claim claim.identity.message_id accepted.1
                    (check_accounting_invariant accepted.0)
                  ≡ (accepted.0, accepted.1, none) =
                ap (settle_claim claim.identity.message_id accepted.1)
                  (check-IsKept accepted.0 kept) in
              rw (spends ∙ ap (λ x. ok x) same, claim_asset)
                (inr (record {
                  asset = asset;
                  usable = usable_asset-ok k claim.asset_id asset found;
                  known = known;
                  room = room;
                  leaves = settled;
                  kept = subst (λ (x : Claimed). IsKept x.0) (sym settled) kept;
                }))
        ])
]

module _ (crypto : Crypto) where
  -- What a deposit that is accepted has passed before its asset is looked at.
  pub record IsVerified (k : Keeper) (claim : DepositClaim) (attestation : Attestation)
      : Type 0 where
    pub closed : ensure_circuit_healthy k ≡ none
    pub well_formed : deposit_validate_basic crypto claim ≡ none
    pub fresh : lookup (replay_key crypto claim.identity) k.processed_claims ≡ none
    pub verified : verify_deposit_claim crypto k claim attestation ≡ none

  -- On books that are kept, a deposit is rejected, and then only the counter of rejections goes up,
  -- or it has passed every test and is minted.
  pub execute_deposit_claim-cases :
      (k : Keeper) (claim : DepositClaim) (attestation : Attestation)
      → IsKept k
      → let done = execute_deposit_claim crypto k claim attestation in
        ((e : Error) × (id : Text) × (done ≡ reject k id e))
        ⊎ (IsVerified k claim attestation
            × IsClaimed k (replay_key crypto claim.identity) claim done)
  unfolding execute_deposit_claim
  execute_deposit_claim-cases k claim attestation h =
      let id = claim.identity.message_id in
      let key = replay_key crypto claim.identity in
      elim (Option-cases (ensure_circuit_healthy k)) [
        | inr (e, stopped) ↦ rw (stopped, execute_deposit_claim) (inl (e, id, refl))
        | inl closed ↦
            rw (closed, execute_deposit_claim)
              (elim (Option-cases (deposit_validate_basic crypto claim)) [
                | inr (e, stopped) ↦ rw (stopped, execute_deposit_claim) (inl (e, [], refl))
                | inl well_formed ↦
                    rw (well_formed, execute_deposit_claim)
                      (elim (Option-cases (lookup key k.processed_claims)) [
                        | inr (old, stopped) ↦
                            rw (stopped, execute_deposit_claim) (inl (_, id, refl))
                        | inl fresh ↦
                            rw (fresh, execute_deposit_claim)
                              (elim (Option-cases
                                (verify_deposit_claim crypto k claim attestation)) [
                                  | inr (e, stopped) ↦
                                      rw (stopped, execute_deposit_claim) (inl (e, id, refl))
                                  | inl verified ↦
                                      rw (verified, execute_deposit_claim)
                                        (elim (claim_asset-cases k key claim h fresh) [
                                          | inl (e, rejected) ↦ inl (e, id, rejected)
                                          | inr done ↦ inr (
                                            record {
                                              closed = closed;
                                              well_formed = well_formed;
                                              fresh = fresh;
                                              verified = verified;
                                            },
                                            done,
                                          )
                                        ])
                                ])
                      ])
              ])
      ]

-- ===== src/Bridge/Accounting.antt =====
-- The accounting of the bridge: x/bridge/keeper/accounting.go and invariants.go.
pub mod Sums
pub mod Supply
pub mod Burnt
pub mod Check
use aegis_link.Common.{ℕ, Bool, true, false, Option, none, some, List, [], ◌∷◌, if◌then◌else◌, not}
use aegis_link.Common.Int.{ℤ, pos, ◌+ℤ◌, ◌-ℤ◌, ltb_ℤ, is_negative, is_zero, int_beq}
use aegis_link.Common.Map.{Map, lookup, insert, erase}
use aegis_link.Text.{Text, text_eq, text_beq}
use aegis_link.Errors.{
  Error, AccountingFault, missing_asset_metadata, negative_expected_supply, supply_mismatch,
  missing_supply_entry, accounting_invariant_broken, Outcome,
}
use aegis_link.Limits.{clone_big_int}
use aegis_link.Registry
use aegis_link.Registry.{Asset, get_asset}
use aegis_link.Bridge.Claim.{DepositClaim}
use aegis_link.Bridge.State.{
  Keeper, ClaimRecord, ClaimResult, WithdrawalRecord, claim_status_accepted, bridge_denom_for_asset,
  trip_circuit,
}

abbrev pub amount_or_zero : Option ℤ → ℤ
amount_or_zero none = pos 0
amount_or_zero (some a) = a

-- An entry of a map of amounts, 0 where there is none.
abbrev pub amount_of : Text → Map Text ℤ → ℤ
amount_of denom m = amount_or_zero (lookup denom m)

-- `mintRepresentation`
unfoldable pub mint_representation : Map Text ℤ → Text → ℤ → Map Text ℤ
mint_representation supply denom amount = insert denom (amount_of denom supply +ℤ amount) supply

-- `burnRepresentation`; `none` is `ErrInsufficientSupply`.
unfoldable pub burn_representation : Map Text ℤ → Text → ℤ → Option (Map Text ℤ)
burn_representation supply denom amount = elim (lookup denom supply) [
  | none ↦ none
  | some current ↦
      if ltb_ℤ current amount then none else some (insert denom (current -ℤ amount) supply)
]

-- The record of an accepted claim.
abbrev pub accepted_record : DepositClaim → Text → ClaimRecord
accepted_record claim denom = record {
  message_id = claim.identity.message_id;
  source_tx_hash = claim.identity.source_tx_hash;
  denom = denom;
  asset_id = claim.asset_id;
  recipient = claim.recipient;
  amount = clone_big_int claim.amount;
  status = claim_status_accepted;
}

unfoldable pub accept_deposit_claim : Keeper → Text → DepositClaim → Asset → Keeper × ClaimResult
unfolding mint_representation
accept_deposit_claim k claim_key claim asset =
    let denom = bridge_denom_for_asset asset in
    (
      record k {
        supply_by_denom = mint_representation k.supply_by_denom denom (clone_big_int claim.amount);
        processed_claims = insert claim_key (accepted_record claim denom) k.processed_claims;
      },
      record {
        status = claim_status_accepted;
        message_id = claim.identity.message_id;
        denom = denom;
        amount = some (clone_big_int claim.amount);
      },
    )

-- The first loop of `CheckAccountingInvariant`: what the accepted claims have minted.
unfoldable pub expect_claims : Map Text ℤ → Map Text ClaimRecord → Map Text ℤ
expect_claims expected [] = expected
expect_claims expected ((key, claim) ∷ claims) =
    expect_claims
      (if text_beq claim.status claim_status_accepted
        then insert claim.denom (amount_of claim.denom expected +ℤ claim.amount) expected
        else expected)
      claims

-- A loop that ends early with a fault, or with a map.
pub data Checked : Type 0 where
  sound : Map Text ℤ → Checked
  broken : AccountingFault → Checked

-- The second loop: what the withdrawals have burnt, under the denominations of their assets.
unfoldable pub expect_withdrawals : Registry.Keeper → Map Text ℤ → List WithdrawalRecord → Checked
expect_withdrawals registry expected [] = sound expected
expect_withdrawals registry expected (w ∷ ws) = elim (get_asset registry w.asset_id) [
  | none ↦ broken (missing_asset_metadata w.asset_id)
  | some asset ↦
      let denom = bridge_denom_for_asset asset in
      let left = amount_of denom expected -ℤ w.amount in
      let rest = expect_withdrawals registry (insert denom left expected) ws in
      if is_negative left then broken (negative_expected_supply w.asset_id denom) else rest
]

-- The third loop: each entry of the supply is what is expected, and is ticked off.
unfoldable pub match_supply : Map Text ℤ → Map Text ℤ → Checked
match_supply expected [] = sound expected
match_supply expected ((denom, actual) ∷ supply) =
    let want = amount_of denom expected in
    let rest = match_supply (erase denom expected) supply in
    if int_beq actual want then rest else broken (supply_mismatch denom want actual)

-- The fourth loop: nothing else is expected.
unfoldable pub match_remaining : Map Text ℤ → Option AccountingFault
match_remaining [] = none
match_remaining ((denom, remaining) ∷ expected) =
    if is_zero remaining
    then match_remaining expected
    else some (missing_supply_entry denom remaining)

match_rest : Map Text ℤ → Checked → Option AccountingFault
unfolding match_remaining
match_rest supply (broken f) = some f
match_rest supply (sound left) = match_remaining left

match_all : Map Text ℤ → Checked → Option AccountingFault
unfolding match_rest match_supply
match_all supply (broken f) = some f
match_all supply (sound expected) = match_rest supply (match_supply expected supply)

-- The four loops.
unfoldable pub accounting_fault : Keeper → Option AccountingFault
unfolding match_all expect_withdrawals expect_claims
accounting_fault k =
    match_all k.supply_by_denom
      (expect_withdrawals k.registry_keeper (expect_claims [] k.processed_claims) k.withdrawals)

-- `CheckAccountingInvariant`, which trips the circuit breaker where a loop finds a fault.
unfoldable pub check_accounting_invariant : Keeper → Outcome Keeper
unfolding accounting_fault trip_circuit
check_accounting_invariant k = elim (accounting_fault k) [
  | none ↦ (k, none)
  | some f ↦ let reason = accounting_invariant_broken f in (trip_circuit k reason, some reason)
]

-- ===== src/Errors.antt =====
-- The sentinel errors of the chain's modules (x/*/types and x/*/keeper). Go wraps a sentinel with a
-- message, `fmt.Errorf("%w: ...", Err)`; the sentinel, which `errors.Is` finds, is what is kept.
-- The reasons that trip the bridge's circuit breaker keep the data of their messages.
use aegis_link.Common.{Option, ◌≡◌, refl, ◌⊎◌, inl, inr}
use aegis_link.Common.Int.{ℤ}
use aegis_link.Text.{Text}

-- The four ways in which `CheckAccountingInvariant` fails.
pub data AccountingFault : Type 0 where
  missing_asset_metadata : Text → AccountingFault
  negative_expected_supply : Text → Text → AccountingFault
  supply_mismatch : Text → ℤ → ℤ → AccountingFault
  missing_supply_entry : Text → ℤ → AccountingFault

pub data Error : Type 0 where
  -- a nil *big.Int is used: a panic in Go
  nil_dereference : Error
  -- x/limits
  invalid_rate_limit limit_not_found invalid_transfer rate_limit_exceeded : Error
  -- x/pauser
  invalid_flow flow_paused : Error
  -- x/registry
  invalid_asset asset_already_exists asset_not_found : Error
  -- x/bank
  invalid_address invalid_denom invalid_amount insufficient_balance hook_failed : Error
  -- x/bridge/types
  invalid_claim invalid_attestation invalid_signer_set : Error
  -- x/bridge/keeper
  duplicate_claim insufficient_attestation_quorum finality_window_expired : Error
  attestation_expired message_id_mismatch payload_hash_mismatch : Error
  signer_set_version_mismatch signer_set_inactive invalid_attestation_signature : Error
  unknown_asset asset_disabled asset_paused insufficient_supply invalid_withdrawal : Error
  accounting_invariant_broken : AccountingFault → Error
  -- `ErrBridgeCircuitOpen`, with the reason that was recorded, if there is one
  bridge_circuit_open : Error
  -- `ImportState`, an error of its own text
  invalid_snapshot : Error
  -- x/ibcrouter
  route_not_found route_disabled invalid_route invalid_route_profile invalid_ibc_transfer : Error
  transfer_not_found transfer_not_pending transfer_not_recoverable : Error
  route_profile_not_found route_profile_disabled : Error
  route_profile_asset_not_allowed route_profile_policy_violation : Error
  -- x/governance
  invalid_proposal unauthorized_proposal duplicate_proposal : Error

-- An operation of a keeper that returns only an error: the state that it leaves, and the error.
abbrev pub Outcome : Type 0 → Type 0
Outcome K = K × Option Error

-- A call that returns a value, or its zero value with an error.
pub data Result {ℓ} (A : Type ℓ) : Type ℓ where
  ok : A → Result A
  err : Error → Result A

pub Result-cases {ℓ} :
    {A : Type ℓ} (r : Result A) → ((a : A) × (r ≡ ok a)) ⊎ ((e : Error) × (r ≡ err e))
Result-cases (ok a) = inl (a, refl)
Result-cases (err e) = inr (e, refl)

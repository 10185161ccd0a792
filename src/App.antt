-- ===== src/App.antt =====
-- The application, chain/aegislink/app/app.go: its keepers and the operations that call one of
-- them. Keepers that Go shares by pointers stand once: the registry, the limits and the pauses in
-- the bridge keeper.
pub mod Calls
pub mod Settle
pub mod Block
use aegis_link.Common.{ℕ, Bool, true, false, Option, none, some, List, [], ◌∷◌, if◌then◌else◌}
use aegis_link.Common.Int.{ℤ}
use aegis_link.Text.{Text, text_beq, trim_space}
use aegis_link.Errors.{Error, Outcome, Result, ok, err, invalid_address}
use aegis_link.Limits
use aegis_link.Pauser
use aegis_link.Registry
use aegis_link.Bank
use aegis_link.Bridge.Claim.{DepositClaim}
use aegis_link.Bridge.Attestation.{Attestation}
use aegis_link.Bridge.State as BridgeState
use aegis_link.Router.State as RouterState
use aegis_link.Governance
use aegis_link.Governance.{ProposalRecord}

pub record QueuedDepositClaim : Type 0 where
  pub claim : DepositClaim
  pub attestation : Attestation
  pub enqueued_at_height : ℕ

-- `authorities` and `applied` are the governance keeper's own.
pub record App : Type 0 where
  pub bank_keeper : Bank.Keeper
  pub bridge_keeper : BridgeState.Keeper
  pub ibc_router_keeper : RouterState.Keeper
  pub authorities : List Text
  pub applied : List ProposalRecord
  pub pending_deposit_claims : List QueuedDepositClaim

-- `NormalizeAddress`, for what the Cosmos SDK accepts as an address.
unfoldable pub normalize_address : (Text → Bool) → Text → Result Text
normalize_address is_bech32 address =
    let trimmed = trim_space address in
    if text_beq trimmed []
    then err invalid_address
    else if is_bech32 trimmed
    then ok trimmed
    else err invalid_address

-- The governance keeper, and the application after it has run.
unfoldable pub governance_keeper : App → Governance.Keeper
governance_keeper a = record {
  registry_keeper = a.bridge_keeper.registry_keeper;
  limits_keeper = a.bridge_keeper.limits_keeper;
  ibc_router_keeper = a.ibc_router_keeper;
  authorities = a.authorities;
  applied = a.applied;
}

unfoldable pub with_governance : App → Governance.Keeper → App
with_governance a g =
    let b = a.bridge_keeper in
    record a {
      bridge_keeper = record b {
        registry_keeper = g.registry_keeper;
        limits_keeper = g.limits_keeper;
      };
      ibc_router_keeper = g.ibc_router_keeper;
      authorities = g.authorities;
      applied = g.applied;
    }

-- The keepers of `NewWithConfig` and of `newAppFromKeepers`, without a store.
unfoldable pub new_app : List Text → ℕ → List Text → App
new_app allowed_signers required_threshold governance_authorities = record {
  bank_keeper = Bank.new_keeper;
  bridge_keeper =
      BridgeState.new_keeper Registry.new_keeper Limits.new_keeper Pauser.new_keeper allowed_signers
        required_threshold;
  ibc_router_keeper = RouterState.new_keeper;
  authorities = Governance.canonical_authority_set governance_authorities;
  applied = [];
  pending_deposit_claims = [];
}

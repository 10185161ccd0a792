-- ===== src/App/Calls.antt =====
-- The operations of chain/aegislink/app/app.go that call one keeper.
use aegis_link.Common.{ℕ, Option, List}
use aegis_link.Common.Int.{ℤ}
use aegis_link.Text.{Text}
use aegis_link.Errors.{Outcome, Result}
use aegis_link.Limits
use aegis_link.Limits.{RateLimit}
use aegis_link.Pauser
use aegis_link.Registry
use aegis_link.Registry.{Asset}
use aegis_link.Bank
use aegis_link.Bridge.State as BridgeState
use aegis_link.Bridge.State.{WithdrawalRecord}
use aegis_link.Bridge.Keeper
use aegis_link.Router.State as RouterState
use aegis_link.Router.State.{Route, TransferRecord}
use aegis_link.Router.Profile.{RouteProfile}
use aegis_link.Router.Transfers
use aegis_link.Governance
use aegis_link.Governance.{AssetStatusProposal, LimitUpdateProposal, RoutePolicyUpdateProposal}
use aegis_link.App.{App, governance_keeper, with_governance}

-- What a call of a keeper leaves of the application.
abbrev after_registry : App → Outcome Registry.Keeper → Outcome App
after_registry a (registry, e) =
    let b = a.bridge_keeper in
    (record a { bridge_keeper = record b { registry_keeper = registry } }, e)

abbrev after_limits : App → Outcome Limits.Keeper → Outcome App
after_limits a (limits, e) =
    let b = a.bridge_keeper in (record a { bridge_keeper = record b { limits_keeper = limits } }, e)

abbrev after_pauser : App → Outcome Pauser.Keeper → Outcome App
after_pauser a (pauser, e) =
    let b = a.bridge_keeper in (record a { bridge_keeper = record b { pauser_keeper = pauser } }, e)

abbrev after_bank : App → Outcome Bank.Keeper → Outcome App
after_bank a (bank, e) = (record a { bank_keeper = bank }, e)

abbrev after_router {ℓ} : {E : Type ℓ} → App → RouterState.Keeper × E → App × E
after_router a (router, e) = (record a { ibc_router_keeper = router }, e)

abbrev after_governance : App → Outcome Governance.Keeper → Outcome App
after_governance a (governance, e) = (with_governance a governance, e)

unfoldable pub set_current_height : App → ℕ → App
set_current_height a height = record a {
  bridge_keeper = BridgeState.set_current_height a.bridge_keeper height;
}

unfoldable pub register_asset : App → Asset → Outcome App
register_asset a asset =
    after_registry a (Registry.register_asset a.bridge_keeper.registry_keeper asset)

unfoldable pub set_limit : App → RateLimit → Outcome App
set_limit a limit = after_limits a (Limits.set_limit a.bridge_keeper.limits_keeper limit)

unfoldable pub pause : App → Text → Outcome App
pause a flow = after_pauser a (Pauser.pause a.bridge_keeper.pauser_keeper flow)

unfoldable pub unpause : App → Text → Outcome App
unpause a flow = after_pauser a (Pauser.unpause a.bridge_keeper.pauser_keeper flow)

unfoldable pub withdrawals : App → ℕ → ℕ → List WithdrawalRecord
withdrawals a from_height to_height = Keeper.withdrawals a.bridge_keeper from_height to_height

unfoldable pub wallet_balance : App → Text → Text → ℤ
wallet_balance a address denom = Bank.balance_of a.bank_keeper address denom

unfoldable pub credit_wallet : App → Text → Text → Option ℤ → Outcome App
credit_wallet a address denom amount = after_bank a (Bank.credit a.bank_keeper address denom amount)

unfoldable pub debit_wallet : App → Text → Text → Option ℤ → Outcome App
debit_wallet a address denom amount = after_bank a (Bank.debit a.bank_keeper address denom amount)

unfoldable pub set_route : App → Route → Outcome App
set_route a route = after_router a (Transfers.set_route a.ibc_router_keeper route)

unfoldable pub set_route_profile : App → RouteProfile → Outcome App
set_route_profile a profile =
    after_router a (Transfers.set_route_profile a.ibc_router_keeper profile)

unfoldable pub initiate_ibc_transfer :
    App → Text → Option ℤ → Text → ℕ → Text → App × Result TransferRecord
initiate_ibc_transfer a asset_id amount receiver timeout_height memo =
    after_router a
      (Transfers.initiate_transfer a.ibc_router_keeper asset_id amount receiver timeout_height memo)

unfoldable pub initiate_ibc_transfer_with_profile :
    App → Text → Text → Option ℤ → Text → ℕ → Text → App × Result TransferRecord
initiate_ibc_transfer_with_profile a route_id asset_id amount receiver timeout_height memo =
    after_router a (
      Transfers.initiate_transfer_with_profile a.ibc_router_keeper route_id asset_id amount receiver
        timeout_height memo)

unfoldable pub complete_ibc_transfer : App → Text → App × Result TransferRecord
complete_ibc_transfer a id = after_router a (Transfers.acknowledge_success a.ibc_router_keeper id)

unfoldable pub fail_ibc_transfer : App → Text → Text → App × Result TransferRecord
fail_ibc_transfer a id reason =
    after_router a (Transfers.acknowledge_failure a.ibc_router_keeper id reason)

unfoldable pub timeout_ibc_transfer : App → Text → App × Result TransferRecord
timeout_ibc_transfer a id = after_router a (Transfers.timeout_transfer a.ibc_router_keeper id)

unfoldable pub refund_ibc_transfer : App → Text → App × Result TransferRecord
refund_ibc_transfer a id = after_router a (Transfers.mark_refunded a.ibc_router_keeper id)

unfoldable pub apply_asset_status : App → Text → AssetStatusProposal → Outcome App
unfolding governance_keeper with_governance
apply_asset_status a authority proposal =
    after_governance a
      (Governance.apply_asset_status_proposal (governance_keeper a) authority proposal)

unfoldable pub apply_limit_update : App → Text → LimitUpdateProposal → Outcome App
unfolding governance_keeper with_governance
apply_limit_update a authority proposal =
    after_governance a
      (Governance.apply_limit_update_proposal (governance_keeper a) authority proposal)

unfoldable pub apply_route_policy_update : App → Text → RoutePolicyUpdateProposal → Outcome App
unfolding governance_keeper with_governance
apply_route_policy_update a authority proposal =
    after_governance a
      (Governance.apply_route_policy_update_proposal (governance_keeper a) authority proposal)

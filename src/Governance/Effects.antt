-- ===== src/Governance/Effects.antt =====
-- What the application of a proposal does: all that it stands for, or nothing.
use aegis_link.Common.{◌≡◌, ◌≢◌, ◌⊎◌, true, false, none, some, [], ◌∷◌, ◌++◌}
use aegis_link.Text.{Text, text_eq, trim_space}
use aegis_link.Errors.{Outcome}
use aegis_link.Limits.{set_limit}
use aegis_link.Bridge.Attestation.{is_seen}
use aegis_link.Router.Profile.{RouteProfile, canonical_policy}
use aegis_link.Router.Transfers.{get_route_profile, set_route_profile}
use aegis_link.Governance.{
  asset_status_record, limit_update_record, route_policy_record, switch_asset, Keeper,
  ProposalRecord, AssetStatusProposal, LimitUpdateProposal, RoutePolicyUpdateProposal, is_applied,
  apply_asset_status_proposal, apply_limit_update_proposal, apply_route_policy_update_proposal,
}

-- A proposal of one of the three kinds, and its application.
pub data Proposal : Type 0 where
  status_of : AssetStatusProposal → Proposal
  limit_of : LimitUpdateProposal → Proposal
  policy_of : RoutePolicyUpdateProposal → Proposal

abbrev pub apply : Keeper → Text → Proposal → Outcome Keeper
apply k authority (status_of p) = apply_asset_status_proposal k authority p
apply k authority (limit_of p) = apply_limit_update_proposal k authority p
apply k authority (policy_of p) = apply_route_policy_update_proposal k authority p

abbrev pub proposal_id_of : Proposal → Text
proposal_id_of (status_of p) = p.proposal_id
proposal_id_of (limit_of p) = p.proposal_id
proposal_id_of (policy_of p) = p.proposal_id

abbrev pub record_of : Proposal → Text → ProposalRecord
record_of (status_of p) = asset_status_record p
record_of (limit_of p) = limit_update_record p
record_of (policy_of p) = route_policy_record p

-- What the proposal stands for has been done without an error, and to one of the three keepers
-- alone.
abbrev pub IsCarriedOut : Keeper → Proposal → Keeper → Type 0
IsCarriedOut k (status_of p) k' =
    (switch_asset k.registry_keeper p ≡ (k'.registry_keeper, none))
    × (k'.limits_keeper ≡ k.limits_keeper)
    × (k'.ibc_router_keeper ≡ k.ibc_router_keeper)
IsCarriedOut k (limit_of p) k' =
    (set_limit k.limits_keeper p.limit ≡ (k'.limits_keeper, none))
    × (k'.registry_keeper ≡ k.registry_keeper)
    × (k'.ibc_router_keeper ≡ k.ibc_router_keeper)
IsCarriedOut k (policy_of p) k' =
    (profile : RouteProfile) × (get_route_profile k.ibc_router_keeper p.route_id ≡ some profile)
    × (set_route_profile k.ibc_router_keeper (record profile { policy = canonical_policy p.policy })
        ≡ (k'.ibc_router_keeper, none))
    × (k'.registry_keeper ≡ k.registry_keeper)
    × (k'.limits_keeper ≡ k.limits_keeper)

-- An applied proposal was new, its authority is known, and it is logged under that authority's
-- name.
pub record IsApplied (k : Keeper) (authority : Text) (p : Proposal) (k' : Keeper) : Type 0 where
  pub new : is_applied (trim_space (proposal_id_of p)) k.applied ≡ false
  pub known : is_seen (trim_space authority) k.authorities ≡ true
  pub logged : k'.applied ≡ k.applied ++ record_of p (trim_space authority) ∷ []
  pub same_authorities : k'.authorities ≡ k.authorities
  pub carried_out : IsCarriedOut k p k'

-- Applied, or refused without a change.
abbrev Decided : Keeper → Text → Proposal → Outcome Keeper → Type 0
Decided k authority p (k', e) = ((e ≡ none) × IsApplied k authority p k') ⊎ ((e ≢ none) × (k' ≡ k))

record IsAdmitted (k : Keeper) (id authority by : Text) : Type 0 where
  new : is_applied (trim_space id) k.applied ≡ false
  known : is_seen (trim_space authority) k.authorities ≡ true
  named : by ≡ trim_space authority

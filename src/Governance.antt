-- ===== src/Governance.antt =====
-- Governance: x/governance/keeper/keeper.go and auth.go. Writing the state to the store (`persist`)
-- changes nothing in memory.
pub mod History
pub mod Atomic
pub mod Effects
use aegis_link.Common.{
  Bool, true, false, ◌||◌, not, Option, none, some, List, [], ◌∷◌, ◌++◌, if◌then◌else◌,
}
use aegis_link.Common.Int.{ℤ}
use aegis_link.Text.{Text, lit, trim_space, text_beq, is_blank}
use aegis_link.Errors.{
  Error, Outcome, Result, ok, err, invalid_proposal, unauthorized_proposal, duplicate_proposal,
  route_profile_not_found,
}
use aegis_link.Codec.{int_decimal}
use aegis_link.Limits
use aegis_link.Limits.{RateLimit, limit_validate_basic, set_limit}
use aegis_link.Registry
use aegis_link.Registry.{enable_asset, disable_asset}
use aegis_link.Bridge.Attestation.{is_seen}
use aegis_link.Router.Profile.{RoutePolicy, RouteProfile, canonical_policy}
use aegis_link.Router.State
use aegis_link.Router.Transfers.{get_route_profile, set_route_profile}

pub data ProposalKind : Type 0 where
  kind_asset_status kind_limit_update kind_route_policy : ProposalKind

pub record AssetStatusProposal : Type 0 where
  pub proposal_id : Text
  pub asset_id : Text
  pub enabled : Bool

pub record LimitUpdateProposal : Type 0 where
  pub proposal_id : Text
  pub limit : RateLimit

pub record RoutePolicyUpdateProposal : Type 0 where
  pub proposal_id : Text
  pub route_id : Text
  pub policy : RoutePolicy

pub record ProposalRecord : Type 0 where
  pub proposal_id : Text
  pub kind : ProposalKind
  pub target_id : Text
  pub summary : Text
  pub applied_by : Text

pub record Keeper : Type 0 where
  pub registry_keeper : Registry.Keeper
  pub limits_keeper : Limits.Keeper
  pub ibc_router_keeper : State.Keeper
  pub authorities : List Text  -- a set
  pub applied : List ProposalRecord

abbrev pub canonical_authority : Text → Text
canonical_authority authority = trim_space authority

-- `canonicalAuthoritySet`
unfoldable pub canonical_authority_set : List Text → List Text
canonical_authority_set [] = []
canonical_authority_set (authority ∷ authorities) =
    let rest = canonical_authority_set authorities in
    if text_beq (canonical_authority authority) []
    then rest
    else canonical_authority authority ∷ rest

-- `NewKeeper`
unfoldable pub new_keeper : Registry.Keeper → Limits.Keeper → State.Keeper → List Text → Keeper
unfolding canonical_authority_set
new_keeper registry limits router authorities = record {
  registry_keeper = registry;
  limits_keeper = limits;
  ibc_router_keeper = router;
  authorities = canonical_authority_set authorities;
  applied = [];
}

abbrev err_if : Bool → Option Error → Option Error
err_if c rest = if c then some invalid_proposal else rest

unfoldable pub asset_status_validate_basic : AssetStatusProposal → Option Error
asset_status_validate_basic p = err_if (is_blank p.proposal_id) (err_if (is_blank p.asset_id) none)

unfoldable pub limit_update_validate_basic : LimitUpdateProposal → Option Error
limit_update_validate_basic p = err_if (is_blank p.proposal_id) (limit_validate_basic p.limit)

unfoldable pub route_policy_validate_basic : RoutePolicyUpdateProposal → Option Error
route_policy_validate_basic p = err_if (is_blank p.proposal_id) (err_if (is_blank p.route_id) none)

-- The loop of `assertProposalNotApplied`, for a trimmed id.
unfoldable pub is_applied : Text → List ProposalRecord → Bool
is_applied id [] = false
is_applied id (r ∷ rs) = text_beq r.proposal_id id || is_applied id rs

unfoldable pub assert_proposal_not_applied : Keeper → Text → Option Error
assert_proposal_not_applied k id =
    if is_applied (trim_space id) k.applied then some duplicate_proposal else none

unfoldable pub authorize : Keeper → Text → Result Text
authorize k authority =
    let name = canonical_authority authority in
    if text_beq name []
    then err unauthorized_proposal
    else if is_seen name k.authorities
    then ok name
    else err unauthorized_proposal

-- The tests that the three kinds of proposals share: the proposal is valid and new, and the
-- authority is known.
unfoldable pub admit : Keeper → Option Error → Text → Text → Result Text
unfolding assert_proposal_not_applied authorize
admit k (some e) id authority = err e
admit k none id authority = elim (assert_proposal_not_applied k id) [
  | some e ↦ err e
  | none ↦ authorize k authority
]

-- The end of an application: the record is kept if nothing failed.
unfoldable pub finish : ProposalRecord → Keeper → Option Error → Outcome Keeper
finish r k (some e) = (k, some e)
finish r k none = (record k { applied = k.applied ++ r ∷ [] }, none)

abbrev bool_text : Bool → Text
bool_text b = if b then lit "true" else lit "false"

abbrev amount_text : Option ℤ → Text
amount_text none = lit "<nil>"
amount_text (some a) = int_decimal a

-- The records that the three kinds of proposals leave.
abbrev pub asset_status_record : AssetStatusProposal → Text → ProposalRecord
asset_status_record p applied_by = record {
  proposal_id = trim_space p.proposal_id;
  kind = kind_asset_status;
  target_id = trim_space p.asset_id;
  summary = lit "set asset " ++ (trim_space p.asset_id ++ (lit " enabled=" ++ bool_text p.enabled));
  applied_by = applied_by;
}

abbrev pub limit_update_record : LimitUpdateProposal → Text → ProposalRecord
limit_update_record p applied_by = record {
  proposal_id = trim_space p.proposal_id;
  kind = kind_limit_update;
  target_id = trim_space p.limit.asset_id;
  summary =
      lit "set limit for "
      ++ (trim_space p.limit.asset_id ++ (lit " to " ++ amount_text p.limit.max_amount));
  applied_by = applied_by;
}

abbrev pub route_policy_record : RoutePolicyUpdateProposal → Text → ProposalRecord
route_policy_record p applied_by = record {
  proposal_id = trim_space p.proposal_id;
  kind = kind_route_policy;
  target_id = trim_space p.route_id;
  summary = lit "updated route policy for " ++ trim_space p.route_id;
  applied_by = applied_by;
}

abbrev pub switch_asset : Registry.Keeper → AssetStatusProposal → Outcome Registry.Keeper
switch_asset registry p =
    if p.enabled then enable_asset registry p.asset_id else disable_asset registry p.asset_id

unfoldable pub apply_asset_status_proposal : Keeper → Text → AssetStatusProposal → Outcome Keeper
unfolding finish admit
apply_asset_status_proposal k authority p =
    elim (admit k (asset_status_validate_basic p) p.proposal_id authority) [
      | err e ↦ (k, some e)
      | ok applied_by ↦
          let (registry, failed) = switch_asset k.registry_keeper p in
          finish (asset_status_record p applied_by) (record k { registry_keeper = registry }) failed
    ]

unfoldable pub apply_limit_update_proposal : Keeper → Text → LimitUpdateProposal → Outcome Keeper
unfolding finish admit
apply_limit_update_proposal k authority p =
    elim (admit k (limit_update_validate_basic p) p.proposal_id authority) [
      | err e ↦ (k, some e)
      | ok applied_by ↦
          let (limits, failed) = set_limit k.limits_keeper p.limit in
          finish (limit_update_record p applied_by) (record k { limits_keeper = limits }) failed
    ]

unfoldable pub apply_route_policy_update_proposal :
    Keeper → Text → RoutePolicyUpdateProposal → Outcome Keeper
unfolding finish admit
apply_route_policy_update_proposal k authority p =
    elim (admit k (route_policy_validate_basic p) p.proposal_id authority) [
      | err e ↦ (k, some e)
      | ok applied_by ↦ elim (get_route_profile k.ibc_router_keeper p.route_id) [
        | none ↦ (k, some route_profile_not_found)
        | some profile ↦
            let (router, failed) =
              set_route_profile k.ibc_router_keeper
                (record profile { policy = canonical_policy p.policy }) in
            finish (route_policy_record p applied_by) (record k { ibc_router_keeper = router })
              failed
      ]
    ]

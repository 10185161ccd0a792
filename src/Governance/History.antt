-- ===== src/Governance/History.antt =====
-- What has been applied: each proposal once, and by an authority.
use aegis_link.Common.{
  ◌≡◌, refl, sym, ap, ◌∙◌, true, false, Option, none, some, List, [], ◌∷◌, ◌++◌, map, arith, All,
  All-append, Option-cases, inl, inr,
}
use aegis_link.Text.{Text, trim_space, text_beq, text_beq_iff}
use aegis_link.Errors.{Error, ok, Result-cases}
use aegis_link.Limits
use aegis_link.Limits.{set_limit}
use aegis_link.Registry
use aegis_link.Registry.{enable_asset, disable_asset}
use aegis_link.Bridge.Attestation.{is_seen}
use aegis_link.Bridge.Verify.Quorum.{Distinct}
use aegis_link.Router.Profile.{canonical_policy}
use aegis_link.Router.State
use aegis_link.Router.Transfers.{get_route_profile, set_route_profile}
use aegis_link.Governance.{
  asset_status_record, limit_update_record, route_policy_record, switch_asset, Keeper,
  ProposalRecord, AssetStatusProposal, LimitUpdateProposal, RoutePolicyUpdateProposal, new_keeper,
  is_applied, admit, authorize, finish, assert_proposal_not_applied, apply_asset_status_proposal,
  apply_limit_update_proposal, apply_route_policy_update_proposal, asset_status_validate_basic,
  limit_update_validate_basic, route_policy_validate_basic,
}

-- Each proposal has been applied once, and by one of the authorities.
pub record IsOrderly (k : Keeper) : Type 0 where
  pub once : Distinct (map (λ (r : ProposalRecord). r.proposal_id) k.applied)
  pub authorized : All (λ (r : ProposalRecord). is_seen r.applied_by k.authorities ≡ true) k.applied

-- One application of a proposal, refused or not.
pub data Step : Keeper → Keeper → Type 0 where
  asset_status :
      (k : Keeper) (authority : Text) (p : AssetStatusProposal)
      → Step k (apply_asset_status_proposal k authority p).0
  limit_update :
      (k : Keeper) (authority : Text) (p : LimitUpdateProposal)
      → Step k (apply_limit_update_proposal k authority p).0
  route_policy :
      (k : Keeper) (authority : Text) (p : RoutePolicyUpdateProposal)
      → Step k (apply_route_policy_update_proposal k authority p).0

pub data Steps : Keeper → Keeper → Type 0 where
  done : (k : Keeper) → Steps k k
  step : (k k' k'' : Keeper) → Step k k' → Steps k' k'' → Steps k k''

is_applied-is_seen :
    (id : Text) (rs : List ProposalRecord)
    → is_applied id rs ≡ is_seen id (map (λ (r : ProposalRecord). r.proposal_id) rs)
unfolding is_applied is_seen
is_applied-is_seen id [] = refl
is_applied-is_seen id (r ∷ rs) = rw (is_applied-is_seen id rs) refl

-- A record that an application would keep.
record IsAdmitted (k : Keeper) (id authority by : Text) : Type 0 where
  new : is_applied (trim_space id) k.applied ≡ false
  known : is_seen by k.authorities ≡ true

admit-IsAdmitted :
    (k : Keeper) (invalid : Option Error) (id authority by : Text)
    → admit k invalid id authority ≡ ok by
    → IsAdmitted k id authority by
unfolding admit assert_proposal_not_applied authorize
admit-IsAdmitted k (some e) id authority by h = absurd (ground arith)
admit-IsAdmitted k none id authority by h = record { new = ground arith; known = ground arith }

is_seen-append :
    (v w : Text) (vs : List Text)
    → is_seen v vs ≡ false
    → text_beq w v ≡ false
    → is_seen v (vs ++ w ∷ []) ≡ false
unfolding is_seen
is_seen-append v w [] h ne = ground arith
is_seen-append v w (u ∷ vs) h ne = ground (arith, is_seen-append v w vs)

pub Distinct-append :
    (v : Text) (vs : List Text) → Distinct vs → is_seen v vs ≡ false → Distinct (vs ++ v ∷ [])
unfolding is_seen
Distinct-append v [] h new = (refl, tt)
Distinct-append v (u ∷ vs) (apart, h) new =
    let ne : text_beq v u ≡ false = ground (arith, text_beq_iff v u, text_beq_iff u v) in
    (is_seen-append u v vs apart ne, Distinct-append v vs h (ground arith))

map-append :
    (rs : List ProposalRecord) (r : ProposalRecord)
    → map (λ (x : ProposalRecord). x.proposal_id) (rs ++ r ∷ [])
      ≡ map (λ (x : ProposalRecord). x.proposal_id) rs ++ r.proposal_id ∷ []
map-append [] r = refl
map-append (x ∷ rs) r = ap (λ t. x.proposal_id ∷ t) (map-append rs r)

-- An admitted record keeps the history in order, whatever else of the keeper changes.
finish-IsOrderly :
    (k k' : Keeper) (id authority : Text) (r : ProposalRecord) (failed : Option Error)
    → IsOrderly k
    → IsAdmitted k id authority r.applied_by
    → r.proposal_id ≡ trim_space id
    → k'.applied ≡ k.applied
    → k'.authorities ≡ k.authorities
    → IsOrderly (finish r k' failed).0
unfolding finish
finish-IsOrderly k k' id authority r (some e) h a own e₁ e₂ = record {
  once = rw e₁ h.once;
  authorized = rw (e₁, e₂) h.authorized;
}
finish-IsOrderly k k' id authority r none h a own e₁ e₂ = record {
  once = rw e₁ (
      rw (map-append k.applied r) (
        Distinct-append r.proposal_id _ h.once
          (rw own (sym (is_applied-is_seen (trim_space id) k.applied) ∙ a.new))));
  authorized = rw (e₁, e₂) (All-append _ k.applied (r ∷ []) h.authorized (a.known, tt));
}

asset_status-IsOrderly :
    (k : Keeper) (authority : Text) (p : AssetStatusProposal)
    → IsOrderly k
    → IsOrderly (apply_asset_status_proposal k authority p).0
unfolding apply_asset_status_proposal
asset_status-IsOrderly k authority p h =
    elim (Result-cases (admit k (asset_status_validate_basic p) p.proposal_id authority)) [
      | inr (e, refused) ↦ rw (refused, apply_asset_status_proposal) h
      | inl (by, admitted) ↦
          rw (admitted, apply_asset_status_proposal)
            (finish-IsOrderly k
              (record k { registry_keeper = (switch_asset k.registry_keeper p).0 }) p.proposal_id
              authority (asset_status_record p by) (switch_asset k.registry_keeper p).1 h
              (admit-IsAdmitted k (asset_status_validate_basic p) p.proposal_id authority by
                admitted)
              refl refl refl)
    ]

limit_update-IsOrderly :
    (k : Keeper) (authority : Text) (p : LimitUpdateProposal)
    → IsOrderly k
    → IsOrderly (apply_limit_update_proposal k authority p).0
unfolding apply_limit_update_proposal
limit_update-IsOrderly k authority p h =
    elim (Result-cases (admit k (limit_update_validate_basic p) p.proposal_id authority)) [
      | inr (e, refused) ↦ rw (refused, apply_limit_update_proposal) h
      | inl (by, admitted) ↦
          rw (admitted, apply_limit_update_proposal)
            (finish-IsOrderly k (record k { limits_keeper = (set_limit k.limits_keeper p.limit).0 })
              p.proposal_id authority (limit_update_record p by)
              (set_limit k.limits_keeper p.limit).1 h
              (admit-IsAdmitted k (limit_update_validate_basic p) p.proposal_id authority by
                admitted)
              refl refl refl)
    ]

route_policy-IsOrderly :
    (k : Keeper) (authority : Text) (p : RoutePolicyUpdateProposal)
    → IsOrderly k
    → IsOrderly (apply_route_policy_update_proposal k authority p).0
unfolding apply_route_policy_update_proposal
route_policy-IsOrderly k authority p h =
    elim (Result-cases (admit k (route_policy_validate_basic p) p.proposal_id authority)) [
      | inr (e, refused) ↦ rw (refused, apply_route_policy_update_proposal) h
      | inl (by, admitted) ↦
          rw (admitted, apply_route_policy_update_proposal)
            (elim (Option-cases (get_route_profile k.ibc_router_keeper p.route_id)) [
              | inl missing ↦ rw (missing, apply_route_policy_update_proposal) h
              | inr (profile, found) ↦
                  rw (found, apply_route_policy_update_proposal)
                    (finish-IsOrderly k
                      (record k {
                        ibc_router_keeper =
                            (set_route_profile k.ibc_router_keeper
                              (record profile { policy = canonical_policy p.policy })).0;
                      })
                      p.proposal_id authority (route_policy_record p by)
                      (set_route_profile k.ibc_router_keeper
                        (record profile { policy = canonical_policy p.policy })).1
                      h
                      (admit-IsAdmitted k (route_policy_validate_basic p) p.proposal_id authority by
                        admitted)
                      refl refl refl)
            ])
    ]

step-IsOrderly : (k k' : Keeper) → Step k k' → IsOrderly k → IsOrderly k'
step-IsOrderly k _ (asset_status _ authority p) h = asset_status-IsOrderly k authority p h
step-IsOrderly k _ (limit_update _ authority p) h = limit_update-IsOrderly k authority p h
step-IsOrderly k _ (route_policy _ authority p) h = route_policy-IsOrderly k authority p h

Steps-IsOrderly : (k k' : Keeper) → Steps k k' → IsOrderly k → IsOrderly k'
Steps-IsOrderly k _ (done _) h = h
Steps-IsOrderly k k' (step _ k₁ _ one more) h =
    Steps-IsOrderly k₁ k' more (step-IsOrderly k k₁ one h)

-- Whatever proposals are tried, by whomever and in whatever order, from a new keeper: no two of
-- those applied have the same id, and each was applied by one of the authorities.
pub reachable-IsOrderly :
    (registry : Registry.Keeper) (limits : Limits.Keeper) (router : State.Keeper)
    (authorities : List Text) (k : Keeper)
    → Steps (new_keeper registry limits router authorities) k
    → IsOrderly k
unfolding new_keeper
reachable-IsOrderly registry limits router authorities k steps =
    Steps-IsOrderly _ k steps (record { once = tt; authorized = tt })

-- ===== src/Governance/Atomic.antt =====
-- The operations of the other keepers that proposals call.
use aegis_link.Common.{
  ◌≡◌, refl, ◌⊎◌, inl, inr, true, false, Bool, Bool-cases, none, some, Option-cases,
}
use aegis_link.Common.Map.{lookup}
use aegis_link.Text.{Text, text_eq, trim_space}
use aegis_link.Errors.{asset_not_found, Error}
use aegis_link.Limits
use aegis_link.Limits.{RateLimit, set_limit, limit_validate_basic}
use aegis_link.Registry
use aegis_link.Registry.{enable_asset, disable_asset, set_asset_enabled}
use aegis_link.Router.Profile
use aegis_link.Router.Profile.{RouteProfile, canonical_policy}
use aegis_link.Router.State
use aegis_link.Router.Transfers.{set_route_profile}
use aegis_link.Governance.{switch_asset, AssetStatusProposal}

-- The operations that proposals call change nothing where they fail.
set_asset_enabled-cases :
    (k : Registry.Keeper) (id : Text) (b : Bool)
    → ((set_asset_enabled k id b).1 ≡ none)
      ⊎ ((e : Error) × (set_asset_enabled k id b ≡ (k, some e)))
unfolding set_asset_enabled
set_asset_enabled-cases k id b = elim (Option-cases (lookup (trim_space id) k.assets)) [
  | inl missing ↦ inr (asset_not_found, rw (missing, set_asset_enabled) refl)
  | inr (a, found) ↦ inl (rw (found, set_asset_enabled) refl)
]

pub switch_asset-cases :
    (k : Registry.Keeper) (p : AssetStatusProposal)
    → ((switch_asset k p).1 ≡ none) ⊎ ((e : Error) × (switch_asset k p ≡ (k, some e)))
unfolding enable_asset disable_asset
switch_asset-cases k p = elim (Bool-cases p.enabled) [
  | inl on ↦ rw on (set_asset_enabled-cases k p.asset_id true)
  | inr off ↦ rw off (set_asset_enabled-cases k p.asset_id false)
]

pub set_limit-cases :
    (k : Limits.Keeper) (l : RateLimit)
    → ((set_limit k l).1 ≡ none) ⊎ ((e : Error) × (set_limit k l ≡ (k, some e)))
unfolding set_limit
set_limit-cases k l = elim (Option-cases (limit_validate_basic l)) [
  | inr (e, invalid) ↦ inr (e, rw (invalid, set_limit) refl)
  | inl valid ↦ inl (rw (valid, set_limit) refl)
]

pub set_route_profile-cases :
    (k : State.Keeper) (p : RouteProfile)
    → ((set_route_profile k p).1 ≡ none) ⊎ ((e : Error) × (set_route_profile k p ≡ (k, some e)))
unfolding set_route_profile
set_route_profile-cases k p = elim (Option-cases (Profile.validate_basic p)) [
  | inr (e, invalid) ↦ inr (e, rw (invalid, set_route_profile) refl)
  | inl valid ↦ inl (rw (valid, set_route_profile) refl)
]

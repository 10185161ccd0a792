-- ===== src/Router/Profile.antt =====
-- Route profiles and their policies: x/ibcrouter/types/route_profile.go.
use aegis_link.Common.{
  Bool, true, false, ◌&&◌, ◌||◌, not, Option, none, some, List, [], ◌∷◌, map, is_empty,
  if◌then◌else◌,
}
use aegis_link.Text.{Text, trim_space, text_beq, is_blank, has_prefix, cut_before}
use aegis_link.Errors.{Error, invalid_route_profile}

pub record AssetRoute : Type 0 where
  pub asset_id : Text
  pub destination_denom : Text

pub record RoutePolicy : Type 0 where
  pub allowed_memo_prefixes : List Text
  pub allowed_action_types : List Text

pub record RouteProfile : Type 0 where
  pub route_id : Text
  pub destination_chain_id : Text
  pub channel_id : Text
  pub enabled : Bool
  pub assets : List AssetRoute
  pub policy : RoutePolicy

abbrev err_if : Bool → Option Error → Option Error
err_if c rest = if c then some invalid_route_profile else rest

unfoldable pub asset_validate_basic : AssetRoute → Option Error
asset_validate_basic a = err_if (is_blank a.asset_id) (err_if (is_blank a.destination_denom) none)

-- The loop of `RouteProfile.ValidateBasic`: the first error of the assets.
unfoldable pub validate_assets : List AssetRoute → Option Error
unfolding asset_validate_basic
validate_assets [] = none
validate_assets (a ∷ assets) =
    let rest = validate_assets assets in
    elim (asset_validate_basic a) [ some e ↦ some e | none ↦ rest ]

-- `RouteProfile.ValidateBasic`
unfoldable pub validate_basic : RouteProfile → Option Error
unfolding validate_assets
validate_basic p = err_if (is_blank p.route_id) (
    err_if (is_blank p.destination_chain_id)
      (err_if (is_blank p.channel_id) (err_if (is_empty p.assets) (validate_assets p.assets))))

abbrev pub canonical_asset_route : AssetRoute → AssetRoute
canonical_asset_route a = record a {
  asset_id = trim_space a.asset_id;
  destination_denom = trim_space a.destination_denom;
}

abbrev pub canonical_policy : RoutePolicy → RoutePolicy
canonical_policy p = record {
  allowed_memo_prefixes = map trim_space p.allowed_memo_prefixes;
  allowed_action_types = map trim_space p.allowed_action_types;
}

-- `RouteProfile.Canonical`
unfoldable pub canonical_profile : RouteProfile → RouteProfile
canonical_profile p = record p {
  route_id = trim_space p.route_id;
  destination_chain_id = trim_space p.destination_chain_id;
  channel_id = trim_space p.channel_id;
  policy = canonical_policy p.policy;
  assets = map canonical_asset_route p.assets;
}

-- The loop of `AllowsMemo`, for a trimmed memo and trimmed prefixes.
unfoldable pub matches_prefix : Text → List Text → Bool
matches_prefix memo [] = false
matches_prefix memo (prefix ∷ prefixes) =
    (text_beq prefix [] && text_beq memo [])
    || (not (text_beq prefix []) && has_prefix memo prefix)
    || matches_prefix memo prefixes

-- `RoutePolicy.AllowsMemo`
unfoldable pub allows_memo : RoutePolicy → Text → Bool
unfolding matches_prefix
allows_memo p memo =
    if is_empty p.allowed_memo_prefixes
    then true
    else matches_prefix (trim_space memo) (canonical_policy p).allowed_memo_prefixes

-- `routeActionType`: what stands before the first colon.
unfoldable pub route_action_type : Text → Text
route_action_type memo =
    let trimmed = trim_space memo in
    if text_beq trimmed [] then [] else trim_space (cut_before 0x3a trimmed)

unfoldable pub is_listed : Text → List Text → Bool
is_listed s [] = false
is_listed s (t ∷ ts) = text_beq t s || is_listed s ts

-- `RoutePolicy.AllowsAction`
unfoldable pub allows_action : RoutePolicy → Text → Bool
unfolding route_action_type is_listed
allows_action p memo =
    let action = route_action_type memo in
    if is_empty p.allowed_action_types
    then true
    else if text_beq action []
    then true
    else is_listed action (canonical_policy p).allowed_action_types

-- The loop of `AssetRoute`, over trimmed assets.
unfoldable pub find_asset : Text → List AssetRoute → Option AssetRoute
find_asset id [] = none
find_asset id (a ∷ assets) =
    let rest = find_asset id assets in if text_beq a.asset_id id then some a else rest

-- `RouteProfile.AssetRoute`
unfoldable pub asset_route : RouteProfile → Text → Option AssetRoute
unfolding find_asset
asset_route p id = find_asset (trim_space id) (canonical_profile p).assets

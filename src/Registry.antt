-- ===== src/Registry.antt =====
-- The asset registry of x/registry: types/asset.go and keeper/keeper.go.
pub mod Denoms
pub mod Stable
use aegis_link.Common.{
  ℕ, Bool, true, false, ◌&&◌, ◌||◌, not, Option, none, some, List, [], ◌∷◌, ◌++◌, if◌then◌else◌,
  ltb, nat_beq,
}
use aegis_link.Common.Map.{Map, lookup, insert, contains}
use aegis_link.Text.{
  Text, text_eq, lit, trim_space, text_beq, is_blank, to_lower, equal_fold, cut_before, cut_after,
}
use aegis_link.Errors.{Error, Outcome, invalid_asset, asset_already_exists, asset_not_found}

abbrev pub source_asset_kind_native_eth : Text
source_asset_kind_native_eth = lit "native_eth"

abbrev pub source_asset_kind_erc20 : Text
source_asset_kind_erc20 = lit "erc20"

pub record Asset : Type 0 where
  pub asset_id : Text
  pub source_chain_id : Text
  pub source_asset_kind : Text
  pub source_asset_address : Text
  pub source_contract : Text
  pub denom : Text
  pub destination_denom : Text
  pub decimals : ℕ
  pub display_name : Text
  pub display_symbol : Text
  pub enabled : Bool

pub record Keeper : Type 0 where
  pub assets : Map Text Asset

unfoldable pub new_keeper : Keeper
new_keeper = record { assets = [] }

abbrev is_native_eth : Asset → Bool
is_native_eth a = text_beq a.source_asset_kind source_asset_kind_native_eth

abbrev is_erc20 : Asset → Bool
is_erc20 a = text_beq a.source_asset_kind source_asset_kind_erc20

abbrev err_if : Bool → Error → Option Error → Option Error
err_if c e rest = if c then some e else rest

-- `Asset.ValidateBasic`
unfoldable pub validate_basic : Asset → Option Error
validate_basic a = err_if (is_blank a.asset_id) invalid_asset (
    err_if (is_blank a.source_chain_id) invalid_asset (
      err_if (not (is_native_eth a) && not (is_erc20 a)) invalid_asset (
        err_if (is_blank a.display_symbol && is_blank a.display_name) invalid_asset (
          err_if (is_erc20 a && (is_blank a.source_asset_address && is_blank a.source_contract))
            invalid_asset (err_if (ltb 18 a.decimals) invalid_asset none)))))

-- `if s == "" { s = other }`
abbrev or_else : Text → Text → Text
or_else s other = if text_beq s [] then other else s

-- The defaults that `canonicalAsset` fills in, on trimmed fields and in the source's order.
abbrev fill_defaults : Asset → Asset
fill_defaults a =
    let address = or_else a.source_asset_address a.source_contract in
    record a {
      display_symbol = or_else a.display_symbol a.display_name;
      source_asset_address = address;
      source_contract = or_else a.source_contract address;
      source_asset_kind =
          if text_beq a.source_asset_kind [] && not (text_beq address [])
          then source_asset_kind_erc20
          else a.source_asset_kind;
    }

unfoldable pub canonical_asset : Asset → Asset
canonical_asset a = fill_defaults (record a {
  asset_id = trim_space a.asset_id;
  source_chain_id = trim_space a.source_chain_id;
  source_asset_address = trim_space a.source_asset_address;
  source_contract = trim_space a.source_contract;
  source_asset_kind = trim_space a.source_asset_kind;
  denom = trim_space a.denom;
  destination_denom = trim_space a.destination_denom;
  display_name = trim_space a.display_name;
  display_symbol = trim_space a.display_symbol;
})

abbrev is_symbol_mark : ℕ → Bool
is_symbol_mark b = nat_beq b 0x2e || nat_beq b 0x2d || nat_beq b 0x5f

-- The replacer of `normalizedSymbol`, which takes out `.`, `-` and `_`.
unfoldable pub strip_marks : Text → Text
strip_marks [] = []
strip_marks (b ∷ s) = let rest = strip_marks s in if is_symbol_mark b then rest else b ∷ rest

unfoldable pub normalized_symbol : Text → Text
unfolding strip_marks to_lower trim_space
normalized_symbol value = to_lower (trim_space (strip_marks value))

-- Without a separator `strings.Cut` gives the whole text, as `cut_before` does.
unfoldable pub asset_prefix_from_asset_id : Text → Text
unfolding cut_before normalized_symbol
asset_prefix_from_asset_id asset_id =
    let trimmed = trim_space asset_id in
    if text_beq trimmed [] then [] else normalized_symbol (cut_before 0x2e trimmed)

unfoldable pub asset_suffix_from_asset_id : Text → Text
unfolding cut_after normalized_symbol
asset_suffix_from_asset_id asset_id =
    let trimmed = trim_space asset_id in
    if text_beq trimmed []
    then []
    else elim (cut_after 0x2e trimmed) [ none ↦ [] | some suffix ↦ normalized_symbol suffix ]

unfoldable pub derive_destination_denom : Asset → Text
unfolding asset_prefix_from_asset_id asset_suffix_from_asset_id normalized_symbol
derive_destination_denom a =
    let prefix = or_else (asset_prefix_from_asset_id a.asset_id) (lit "asset") in
    if is_native_eth a
    then lit "u" ++ prefix
    else if is_erc20 a
    then lit "u"
      ++ (prefix
          ++ or_else
              (or_else (asset_suffix_from_asset_id a.asset_id) (normalized_symbol a.display_symbol))
              (lit "token"))
    else lit "u" ++ (prefix ++ normalized_symbol a.display_symbol)

unfoldable pub derive_asset_metadata : Asset → Asset
unfolding derive_destination_denom
derive_asset_metadata a = record a {
  destination_denom = derive_destination_denom a;
  denom = derive_destination_denom a;
}

-- `ensureDestinationDenomAvailable`: another key with the same denomination, up to letter case?
unfoldable pub ensure_destination_denom_available : Map Text Asset → Asset → Text → Option Error
ensure_destination_denom_available [] asset key = none
ensure_destination_denom_available ((existing_key, existing) ∷ rest) asset key =
    if not (text_beq existing_key key)
      && equal_fold existing.destination_denom asset.destination_denom
    then some asset_already_exists
    else ensure_destination_denom_available rest asset key

-- What `RegisterAsset` and `ImportAssets` store.
abbrev pub stored_asset : Asset → Asset
stored_asset a = derive_asset_metadata (canonical_asset a)

unfoldable pub register_asset : Keeper → Asset → Outcome Keeper
register_asset k asset =
    let stored = stored_asset asset in
    let key = trim_space stored.asset_id in
    elim (validate_basic stored) [
      | some e ↦ (k, some e)
      | none ↦ elim (lookup key k.assets) [
        | some existing ↦ (k, some asset_already_exists)
        | none ↦ elim (ensure_destination_denom_available k.assets stored key) [
          | some e ↦ (k, some e)
          | none ↦ (record k { assets = insert key stored k.assets }, none)
        ]
      ]
    ]

abbrev pub get_asset : Keeper → Text → Option Asset
get_asset k asset_id = lookup (trim_space asset_id) k.assets

unfoldable pub set_asset_enabled : Keeper → Text → Bool → Outcome Keeper
set_asset_enabled k asset_id enabled =
    let key = trim_space asset_id in
    elim (lookup key k.assets) [
      | none ↦ (k, some asset_not_found)
      | some asset ↦
          (record k { assets = insert key (record asset { enabled = enabled }) k.assets }, none)
    ]

unfoldable pub disable_asset : Keeper → Text → Outcome Keeper
unfolding set_asset_enabled
disable_asset k asset_id = set_asset_enabled k asset_id false

unfoldable pub enable_asset : Keeper → Text → Outcome Keeper
unfolding set_asset_enabled
enable_asset k asset_id = set_asset_enabled k asset_id true

-- The loop of `ImportAssets`, which stops at the first asset that is refused.
import_from : Map Text Asset → List Asset → Outcome Keeper
import_from m [] = (record { assets = m }, none)
import_from m (asset ∷ assets) =
    let stored = stored_asset asset in
    let key = trim_space stored.asset_id in
    elim (validate_basic stored) [
      | some e ↦ (record { assets = m }, some e)
      | none ↦ elim (ensure_destination_denom_available m stored key) [
        | some e ↦ (record { assets = m }, some e)
        | none ↦ import_from (insert key stored m) assets
      ]
    ]

unfoldable pub import_assets : Keeper → List Asset → Outcome Keeper
unfolding import_from
import_assets k assets = import_from [] assets

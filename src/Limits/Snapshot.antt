-- ===== src/Limits/Snapshot.antt =====
-- Snapshots of the rate limits: `ExportState` and `ImportState` of x/limits/keeper.
pub mod Stored
pub mod Restore
use aegis_link.Common.{Option, none, some, List, [], ◌∷◌, map}
use aegis_link.Common.Map.{Map, insert}
use aegis_link.Text.{Text, text_eq, trim_space}
use aegis_link.Errors.{Error, Outcome}
use aegis_link.Limits.{
  RateLimit, WindowUsage, Keeper, limit_validate_basic, usage_validate_basic, canonical_limit,
  canonical_usage,
}

pub record StateSnapshot : Type 0 where
  pub limits : List RateLimit
  pub usage : List WindowUsage

abbrev limit_entry : Text × RateLimit → RateLimit
limit_entry (key, limit) = canonical_limit limit

abbrev usage_record : Text × WindowUsage → WindowUsage
usage_record (key, usage) = canonical_usage usage

unfoldable pub export_limits : Keeper → List RateLimit
export_limits k = map limit_entry k.limits

unfoldable pub export_usage : Keeper → List WindowUsage
export_usage k = map usage_record k.usage

unfoldable pub export_state : Keeper → StateSnapshot
unfolding export_limits export_usage
export_state k = record { limits = export_limits k; usage = export_usage k }

-- The loops of the imports: what they have read, and the error that has stopped them.
unfoldable pub read_limits : Map Text RateLimit → List RateLimit → Outcome (Map Text RateLimit)
read_limits m [] = (m, none)
read_limits m (l ∷ ls) = elim (limit_validate_basic l) [
  | some e ↦ (m, some e)
  | none ↦
      let stored = canonical_limit l in
      read_limits (insert (trim_space stored.asset_id) stored m) ls
]

unfoldable pub read_usage : Map Text WindowUsage → List WindowUsage → Outcome (Map Text WindowUsage)
read_usage m [] = (m, none)
read_usage m (u ∷ us) = elim (usage_validate_basic u) [
  | some e ↦ (m, some e)
  | none ↦ read_usage (insert (trim_space u.asset_id) (canonical_usage u) m) us
]

-- `ImportLimits`
unfoldable pub import_limits : Keeper → List RateLimit → Outcome Keeper
unfolding read_limits
import_limits k limits = let (m, err) = read_limits [] limits in (record k { limits = m }, err)

-- `ImportUsage`
unfoldable pub import_usage : Keeper → List WindowUsage → Outcome Keeper
unfolding read_usage
import_usage k usage = let (m, err) = read_usage [] usage in (record k { usage = m }, err)

abbrev pub after_limits : StateSnapshot → Outcome Keeper → Outcome Keeper
after_limits s (k, some e) = (k, some e)
after_limits s (k, none) = import_usage k s.usage

-- `ImportState`, which leaves what it has read where it fails.
unfoldable pub import_state : Keeper → StateSnapshot → Outcome Keeper
import_state k s = after_limits s (import_limits k s.limits)

-- ===== src/Limits/Snapshot/Restore.antt =====
-- The snapshots of the limits keeper give its state back.
use mathlib.Core.List.{append_assoc, append-nil}
use mathlib.Core.Path.{subst}
use aegis_link.Common.{◌≡◌, sym, ap, ◌∙◌, none, [], ◌∷◌, ◌++◌, map, All}
use aegis_link.Common.Map.{Map, insert, Unique, insert_fresh, Unique-append}
use aegis_link.Text.{Text, text_eq, trim_space}
use aegis_link.Errors.{Outcome}
use aegis_link.Limits.{RateLimit, WindowUsage, Keeper, canonical_limit}
use aegis_link.Limits.Snapshot.{
  limit_entry, usage_record, export_limits, export_usage, export_state, read_limits, read_usage,
  import_limits, import_usage, import_state, after_limits,
}
use aegis_link.Limits.Snapshot.Stored.{
  IsLimitEntry, IsUsageEntry, IsStored, Reachable, reachable-IsStored,
}

read_limits-export :
    (done m : Map Text RateLimit)
    → Unique (done ++ m)
    → All IsLimitEntry m
    → read_limits done (map limit_entry m) ≡ (done ++ m, none)
unfolding read_limits
read_limits-export done [] u n = ap (λ x. (x, none)) (sym (append-nil done))
read_limits-export done ((key, l) ∷ m) u ((valid, trimmed, own), n) =
    let next = append_assoc done ((key, l) ∷ []) m in
    let same : canonical_limit l ≡ l = ap (λ i. record l { asset_id = i }) (trimmed ∙ sym own) in
    ap (λ x. read_limits done (x ∷ map limit_entry m)) same
    ∙ rw (valid, read_limits)
        (ap (λ x. read_limits (insert (trim_space x.asset_id) x done) (map limit_entry m)) same
          ∙ ap (λ i. read_limits (insert i l done) (map limit_entry m)) trimmed
          ∙ ap (λ x. read_limits x (map limit_entry m))
              (insert_fresh key l done (Unique-append key l done m u))
          ∙ read_limits-export (done ++ (key, l) ∷ []) m (subst (λ x. Unique x) (sym next) u) n
          ∙ ap (λ x. (x, none)) next)

read_usage-export :
    (done m : Map Text WindowUsage)
    → Unique (done ++ m)
    → All IsUsageEntry m
    → read_usage done (map usage_record m) ≡ (done ++ m, none)
unfolding read_usage
read_usage-export done [] u n = ap (λ x. (x, none)) (sym (append-nil done))
read_usage-export done ((key, l) ∷ m) u ((valid, trimmed, same), n) =
    let next = append_assoc done ((key, l) ∷ []) m in
    ap (λ x. read_usage done (x ∷ map usage_record m)) same
    ∙ rw (valid, read_usage)
        (ap (λ x. read_usage (insert (trim_space l.asset_id) x done) (map usage_record m)) same
          ∙ ap (λ i. read_usage (insert i l done) (map usage_record m)) trimmed
          ∙ ap (λ x. read_usage x (map usage_record m))
              (insert_fresh key l done (Unique-append key l done m u))
          ∙ read_usage-export (done ++ (key, l) ∷ []) m (subst (λ x. Unique x) (sym next) u) n
          ∙ ap (λ x. (x, none)) next)

import_limits-export :
    (k k' : Keeper)
    → IsStored k
    → import_limits k' (export_limits k) ≡ (record k' { limits = k.limits }, none)
unfolding import_limits export_limits
import_limits-export k k' h =
    ap (λ (r : Outcome (Map Text RateLimit)). (record k' { limits = r.0 }, r.1))
      (read_limits-export [] k.limits h.unique_limits h.limit_entries)

import_usage-export :
    (k k' : Keeper)
    → IsStored k
    → import_usage k' (export_usage k) ≡ (record k' { usage = k.usage }, none)
unfolding import_usage export_usage
import_usage-export k k' h =
    ap (λ (r : Outcome (Map Text WindowUsage)). (record k' { usage = r.0 }, r.1))
      (read_usage-export [] k.usage h.unique_usage h.usage_entries)

-- Importing what a stored keeper exports gives its state back.
pub import-export_stored :
    (k k' : Keeper) → IsStored k → import_state k' (export_state k) ≡ (k, none)
unfolding import_state export_state
import-export_stored k k' h =
    ap (after_limits (export_state k)) (import_limits-export k k' h)
    ∙ import_usage-export k (record k' { limits = k.limits }) h

-- The snapshot of any keeper that calls lead to is accepted by every keeper, which then has the
-- same limits and usage.
pub import-export_reachable :
    (k k' : Keeper) → Reachable k → import_state k' (export_state k) ≡ (k, none)
import-export_reachable k k' r = import-export_stored k k' (reachable-IsStored r)

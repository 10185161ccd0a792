-- ===== src/Limits/Snapshot/Stored.antt =====
-- What the limits keeper stores, whatever calls it has had.
use mathlib.Core.Path.{subst}
use aegis_link.Common.{
  ℕ, ◌≡◌, refl, sym, ap, inl, inr, false, Option, none, some, List, [], ◌∷◌, All, arith,
  Option-cases,
}
use aegis_link.Common.Int.{ℤ, pos, ◌≤ℤ◌, +ℤ_parts}
use aegis_link.Common.Map.{Map, lookup, insert, Unique, insert-Unique, insert-All, All-lookup}
use aegis_link.Text.{Text, text_eq, is_blank, trim_space}
use aegis_link.Text.Trim.{trim_space-trim_space}
use aegis_link.Limits.{
  RateLimit, WindowUsage, Keeper, new_keeper, set_limit, record_transfer_at_height,
  check_transfer_at_height, limit_validate_basic, usage_validate_basic, canonical_limit,
  canonical_usage, recorded_usage, active_usage, usage_entry, usage_or_zero, clone_big_int,
}
use aegis_link.Limits.Window.{record-IsRecorded, record-HasRoom}
use aegis_link.Limits.Snapshot.{
  StateSnapshot, read_limits, read_usage, import_limits, import_usage, import_state,
}

-- A valid limit, and a valid usage, under its asset's id without white space around it.
abbrev pub IsLimitEntry : Text × RateLimit → Type 0
IsLimitEntry (key, l) =
    (limit_validate_basic l ≡ none) × (trim_space l.asset_id ≡ key) × (l.asset_id ≡ key)

abbrev pub IsUsageEntry : Text × WindowUsage → Type 0
IsUsageEntry (key, u) =
    (usage_validate_basic u ≡ none) × (trim_space u.asset_id ≡ key) × (canonical_usage u ≡ u)

-- What the keeper's maps are like.
pub record IsStored (k : Keeper) : Type 0 where
  pub unique_limits : Unique k.limits
  pub unique_usage : Unique k.usage
  pub limit_entries : All IsLimitEntry k.limits
  pub usage_entries : All IsUsageEntry k.usage

-- Entries as they are stored.
canonical_limit-IsLimitEntry :
    (l : RateLimit)
    → limit_validate_basic l ≡ none
    → IsLimitEntry (trim_space (canonical_limit l).asset_id, canonical_limit l)
unfolding limit_validate_basic
canonical_limit-IsLimitEntry l valid =
    let twice = trim_space-trim_space l.asset_id in
    (rw (twice, limit_validate_basic) valid, refl, sym twice)

canonical_usage-IsUsageEntry :
    (u : WindowUsage)
    → usage_validate_basic u ≡ none
    → IsUsageEntry (trim_space u.asset_id, canonical_usage u)
unfolding usage_validate_basic
canonical_usage-IsUsageEntry u valid =
    let twice = trim_space-trim_space u.asset_id in
    (
      rw (twice, usage_validate_basic) (ground arith),
      twice,
      ap (λ i. record u { asset_id = i; used_amount = some (clone_big_int u.used_amount) }) twice,
    )

new_keeper-IsStored : IsStored new_keeper
unfolding new_keeper
new_keeper-IsStored = record {
  unique_limits = tt;
  unique_usage = tt;
  limit_entries = tt;
  usage_entries = tt;
}

set_limit-IsStored : (k : Keeper) (l : RateLimit) → IsStored k → IsStored (set_limit k l).0
unfolding set_limit
set_limit-IsStored k l h = elim (Option-cases (limit_validate_basic l)) [
  | inr (e, refused) ↦ rw (refused, set_limit) h
  | inl valid ↦
      let stored = canonical_limit l in
      rw (valid, set_limit)
        (record {
          unique_limits =
              insert-Unique (trim_space stored.asset_id) stored k.limits h.unique_limits;
          unique_usage = h.unique_usage;
          limit_entries =
              insert-All IsLimitEntry (trim_space stored.asset_id) stored k.limits
                (canonical_limit-IsLimitEntry l valid) h.limit_entries;
          usage_entries = h.usage_entries;
        })
]

read_limits-Stored :
    (m : Map Text RateLimit) (ls : List RateLimit)
    → Unique m × All IsLimitEntry m
    → Unique (read_limits m ls).0 × All IsLimitEntry (read_limits m ls).0
unfolding read_limits
read_limits-Stored m [] h = h
read_limits-Stored m (l ∷ ls) (u, h) = elim (Option-cases (limit_validate_basic l)) [
  | inr (e, refused) ↦ rw (refused, read_limits) (u, h)
  | inl valid ↦
      let stored = canonical_limit l in
      let key = trim_space stored.asset_id in
      rw (valid, read_limits)
        (read_limits-Stored (insert key stored m) ls (
          insert-Unique key stored m u,
          insert-All IsLimitEntry key stored m (canonical_limit-IsLimitEntry l valid) h,
        ))
]

read_usage-Stored :
    (m : Map Text WindowUsage) (us : List WindowUsage)
    → Unique m × All IsUsageEntry m
    → Unique (read_usage m us).0 × All IsUsageEntry (read_usage m us).0
unfolding read_usage
read_usage-Stored m [] h = h
read_usage-Stored m (x ∷ us) (u, h) = elim (Option-cases (usage_validate_basic x)) [
  | inr (e, refused) ↦ rw (refused, read_usage) (u, h)
  | inl valid ↦
      let stored = canonical_usage x in
      let key = trim_space x.asset_id in
      rw (valid, read_usage)
        (read_usage-Stored (insert key stored m) us (
          insert-Unique key stored m u,
          insert-All IsUsageEntry key stored m (canonical_usage-IsUsageEntry x valid) h,
        ))
]

import_state-IsStored :
    (k : Keeper) (s : StateSnapshot) → IsStored k → IsStored (import_state k s).0
unfolding import_state import_limits import_usage
import_state-IsStored k s h =
    let (ul, el) = read_limits-Stored [] s.limits (tt, tt) in
    let (uu, eu) = read_usage-Stored [] s.usage (tt, tt) in
    elim (Option-cases (read_limits [] s.limits).1) [
      | inr (e, failed) ↦
          rw (failed, import_state)
            (record {
              unique_limits = ul;
              unique_usage = h.unique_usage;
              limit_entries = el;
              usage_entries = h.usage_entries;
            })
      | inl done ↦
          rw (done, import_state)
            (record {
              unique_limits = ul;
              unique_usage = uu;
              limit_entries = el;
              usage_entries = eu;
            })
    ]

active_usage-positive :
    (l : RateLimit) (u : WindowUsage) (at_height : ℕ)
    → pos 0 ≤ℤ clone_big_int u.used_amount
    → pos 0 ≤ℤ clone_big_int (active_usage l u at_height).used_amount
unfolding active_usage
active_usage-positive l u at_height used = ground arith

recorded-IsUsageEntry :
    (l : RateLimit) (u : WindowUsage) (at_height : ℕ) (amount : ℤ)
    → is_blank l.asset_id ≡ false
    → pos 0 ≤ℤ clone_big_int u.used_amount
    → pos 0 ≤ℤ amount
    → IsUsageEntry (trim_space l.asset_id, recorded_usage l u at_height amount)
unfolding usage_validate_basic recorded_usage
recorded-IsUsageEntry l u at_height amount named used positive =
    let twice = trim_space-trim_space l.asset_id in
    let active = active_usage-positive l u at_height used in
    (
      rw (twice, usage_validate_basic)
          (rw (named, usage_validate_basic)
            (ground
              (arith, +ℤ_parts (clone_big_int (active_usage l u at_height).used_amount) amount))),
      twice,
      ap (λ i. record (recorded_usage l u at_height amount) { asset_id = i }) twice,
    )

stored_amount-positive :
    (u : Option WindowUsage)
    → ((v : WindowUsage) → u ≡ some v → usage_validate_basic v ≡ none)
    → pos 0 ≤ℤ clone_big_int (usage_or_zero u).used_amount
unfolding usage_validate_basic
stored_amount-positive none h = omega arith
stored_amount-positive (some u) h = let valid = h u refl in ground arith

limit-named : (l : RateLimit) → limit_validate_basic l ≡ none → is_blank l.asset_id ≡ false
unfolding limit_validate_basic
limit-named l valid = ground arith

record-IsStored :
    (k : Keeper) (id : Text) (amount : Option ℤ) (at_height : ℕ)
    → IsStored k
    → IsStored (record_transfer_at_height k id amount at_height).0
unfolding record_transfer_at_height check_transfer_at_height
record-IsStored k id none at_height h = h
record-IsStored k id (some a) at_height h = elim (record-IsRecorded k id a at_height) [
  | inr (failed, same, no_room) ↦ rw same h
  | inl (done, r) ↦
      let room = r.room in
      let (valid, trimmed, own) =
        All-lookup IsLimitEntry (trim_space id) room.limit k.limits h.limit_entries room.found in
      let entry =
        recorded-IsUsageEntry room.limit (usage_entry k id) at_height a
          (limit-named room.limit valid)
          (stored_amount-positive (lookup (trim_space id) k.usage) (λ v found.
            (All-lookup IsUsageEntry (trim_space id) v k.usage h.usage_entries found).0))
          room.nonneg in
      rw (record-HasRoom k id a at_height room) (record {
        unique_limits = h.unique_limits;
        unique_usage = insert-Unique (trim_space id) _ k.usage h.unique_usage;
        limit_entries = h.limit_entries;
        usage_entries =
            insert-All IsUsageEntry (trim_space id) _ k.usage
              (subst
                (λ i. IsUsageEntry (i, recorded_usage room.limit (usage_entry k id) at_height a))
                trimmed entry)
              h.usage_entries;
      })
]

-- The keepers that calls lead to from a new one: limits that are set, transfers that are recorded
-- and snapshots that are imported, refused or not.
pub data Reachable : Keeper → Type 0 where
  new : Reachable new_keeper
  set : {k : Keeper} → (l : RateLimit) → Reachable k → Reachable (set_limit k l).0
  transfer :
      {k : Keeper}
      → (id : Text) (amount : Option ℤ) (at_height : ℕ) → Reachable k
      → Reachable (record_transfer_at_height k id amount at_height).0
  restore : {k : Keeper} → (s : StateSnapshot) → Reachable k → Reachable (import_state k s).0

pub reachable-IsStored : {k : Keeper} → Reachable k → IsStored k
reachable-IsStored new = new_keeper-IsStored
reachable-IsStored (set {k} l r) = set_limit-IsStored k l (reachable-IsStored r)
reachable-IsStored (transfer {k} id amount at_height r) =
    record-IsStored k id amount at_height (reachable-IsStored r)
reachable-IsStored (restore {k} s r) = import_state-IsStored k s (reachable-IsStored r)

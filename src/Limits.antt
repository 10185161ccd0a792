-- ===== src/Limits.antt =====
-- The rate limits of x/limits: types/limits.go, keeper/keeper.go and keeper/usage.go.
-- A `*big.Int` is an optional integer; heights are uint64, so a window's end wraps.
pub mod Window
pub mod Budget
pub mod Rollover
pub mod Genesis
pub mod Snapshot
use aegis_link.Common.{
  ℕ, ◌+◌, ◌%◌, ◌^◌, Bool, true, false, ◌||◌, Option, none, some, [], if◌then◌else◌, leb, nat_beq,
}
use aegis_link.Common.Int.{ℤ, pos, ◌+ℤ◌, is_positive, is_negative, ltb_ℤ, int_beq}
use aegis_link.Common.Map.{Map, lookup, insert}
use aegis_link.Text.{Text, trim_space, text_beq, is_blank, text_eq}
use aegis_link.Errors.{
  Error, Outcome, invalid_rate_limit, limit_not_found, invalid_transfer, rate_limit_exceeded,
  nil_dereference,
}

pub record RateLimit : Type 0 where
  pub asset_id : Text
  pub window_blocks : ℕ
  pub max_amount : Option ℤ

pub record WindowUsage : Type 0 where
  pub asset_id : Text
  pub window_start : ℕ
  pub used_amount : Option ℤ

pub record Keeper : Type 0 where
  pub limits : Map Text RateLimit
  pub usage : Map Text WindowUsage

-- `x == nil || x.Sign() <= 0`
abbrev pub not_positive : Option ℤ → Bool
not_positive none = true
not_positive (some a) = if is_positive a then false else true

-- `x == nil || x.Sign() < 0`
abbrev pub nil_or_negative : Option ℤ → Bool
nil_or_negative none = true
nil_or_negative (some a) = is_negative a

abbrev pub clone_big_int : Option ℤ → ℤ
clone_big_int none = pos 0
clone_big_int (some a) = a

-- `RateLimit.ValidateBasic`
unfoldable pub limit_validate_basic : RateLimit → Option Error
limit_validate_basic l =
    if is_blank l.asset_id
    then some invalid_rate_limit
    else if nat_beq l.window_blocks 0
    then some invalid_rate_limit
    else if not_positive l.max_amount
    then some invalid_rate_limit
    else none

-- `WindowUsage.ValidateBasic`
unfoldable pub usage_validate_basic : WindowUsage → Option Error
usage_validate_basic u =
    if is_blank u.asset_id
    then some invalid_rate_limit
    else if nil_or_negative u.used_amount
    then some invalid_rate_limit
    else none

unfoldable pub new_keeper : Keeper
new_keeper = record { limits = []; usage = [] }

abbrev pub canonical_limit : RateLimit → RateLimit
canonical_limit l = record l { asset_id = trim_space l.asset_id }

abbrev pub canonical_usage : WindowUsage → WindowUsage
canonical_usage u = record u {
  asset_id = trim_space u.asset_id;
  used_amount = some (clone_big_int u.used_amount);
}

unfoldable pub set_limit : Keeper → RateLimit → Outcome Keeper
unfolding limit_validate_basic
set_limit k limit = elim (limit_validate_basic limit) [
  | some e ↦ (k, some e)
  | none ↦
      let stored = canonical_limit limit in
      (record k { limits = insert (trim_space stored.asset_id) stored k.limits }, none)
]

abbrev pub get_limit : Keeper → Text → Option RateLimit
get_limit k asset_id = lookup (trim_space asset_id) k.limits

-- `k.usage[limitKey(assetID)]`, the zero value where there is none.
abbrev pub usage_or_zero : Option WindowUsage → WindowUsage
usage_or_zero none = record { asset_id = []; window_start = 0; used_amount = none }
usage_or_zero (some u) = u

abbrev pub usage_entry : Keeper → Text → WindowUsage
usage_entry k asset_id = usage_or_zero (lookup (trim_space asset_id) k.usage)

-- `usage.WindowStart+limit.WindowBlocks`, in 64 bits.
abbrev pub window_end : RateLimit → WindowUsage → ℕ
window_end l u = (u.window_start + l.window_blocks) % 2 ^ 64

-- The usage that counts at a height: a window that has run out starts anew.
unfoldable pub active_usage : RateLimit → WindowUsage → ℕ → WindowUsage
active_usage limit usage at_height =
    let usage' = canonical_usage usage in
    let named =
      if text_beq usage'.asset_id [] then record usage' { asset_id = limit.asset_id } else usage' in
    if nat_beq named.window_start 0
    then named
    else if leb (window_end limit named) at_height
    then record { asset_id = limit.asset_id; window_start = at_height; used_amount = some (pos 0) }
    else named

-- `next.Cmp(limit.MaxAmount) > 0`
abbrev pub exceeds : Option ℤ → ℤ → Option Error
exceeds none next = some nil_dereference
exceeds (some m) next = if ltb_ℤ m next then some rate_limit_exceeded else none

-- The amount after a transfer, in the window that is active at the height.
abbrev pub next_used : RateLimit → WindowUsage → ℕ → ℤ → ℤ
next_used limit usage at_height amount =
    clone_big_int (active_usage limit usage at_height).used_amount +ℤ amount

unfoldable pub check_transfer_at_height : Keeper → Text → Option ℤ → ℕ → Option Error
check_transfer_at_height k asset_id none at_height = some invalid_transfer
check_transfer_at_height k asset_id (some amount) at_height =
    if is_negative amount then some invalid_transfer else elim (get_limit k asset_id) [
      | none ↦ some limit_not_found
      | some limit ↦
          exceeds limit.max_amount (next_used limit (usage_entry k asset_id) at_height amount)
    ]

-- The usage that `RecordTransferAtHeight` stores.
unfoldable pub recorded_usage : RateLimit → WindowUsage → ℕ → ℤ → WindowUsage
recorded_usage limit usage at_height amount =
    let current = active_usage limit usage at_height in
    canonical_usage (record {
      asset_id = limit.asset_id;
      window_start = if nat_beq current.window_start 0 then at_height else current.window_start;
      used_amount = some (next_used limit usage at_height amount);
    })

-- `limit, _ := k.GetLimit(assetID)`
abbrev pub limit_or_zero : Option RateLimit → RateLimit
limit_or_zero none = record { asset_id = []; window_blocks = 0; max_amount = none }
limit_or_zero (some l) = l

unfoldable pub record_transfer_at_height : Keeper → Text → Option ℤ → ℕ → Outcome Keeper
record_transfer_at_height k asset_id amount at_height =
    elim (check_transfer_at_height k asset_id amount at_height) [
      | some e ↦ (k, some e)
      | none ↦
          let stored =
            recorded_usage (limit_or_zero (get_limit k asset_id)) (usage_entry k asset_id) at_height
              (clone_big_int amount) in
          (record k { usage = insert (trim_space asset_id) stored k.usage }, none)
    ]

-- `CurrentUsage`: what is used of the window that is active at the height, if anything.
unfoldable pub current_usage : Keeper → Text → ℕ → Option WindowUsage
current_usage k asset_id at_height = elim (lookup (trim_space asset_id) k.usage) [
  | none ↦ none
  | some u ↦ elim (get_limit k asset_id) [
    | none ↦ none
    | some limit ↦
        let active = active_usage limit u at_height in
        if int_beq (clone_big_int active.used_amount) (pos 0)
        then none
        else some (canonical_usage active)
  ]
]

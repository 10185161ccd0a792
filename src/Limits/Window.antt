-- ===== src/Limits/Window.antt =====
-- What the window of a rate limit guarantees: `CheckTransferAtHeight`, `RecordTransferAtHeight`.
use aegis_link.Common.{
  ℕ, ◌≡◌, refl, ◌↔◌, ◌≢◌, Option, none, some, arith, Option-cases, ◌⊎◌, inl, inr, sym, ◌∙◌, ap,
}
use aegis_link.Common.Int.{ℤ, pos, ◌+ℤ◌, ◌≤ℤ◌}
use aegis_link.Common.Map.{insert, lookup-insert_self, lookup-insert_ne}
use aegis_link.Text.{Text, trim_space, text_eq}
use aegis_link.Errors.{Error}
use aegis_link.Limits.{
  RateLimit, WindowUsage, Keeper, get_limit, usage_entry, clone_big_int, active_usage,
  check_transfer_at_height, record_transfer_at_height, recorded_usage, usage_or_zero,
}

-- The amount used of the window that is active at a height.
abbrev pub used_at : RateLimit → WindowUsage → ℕ → ℤ
used_at l u h = clone_big_int (active_usage l u h).used_amount

-- Room for an amount: it is not negative, its asset has a limit with a maximum, and what is used of
-- the window then active plus the amount is at most that maximum.
pub record HasRoom (k : Keeper) (id : Text) (a : ℤ) (h : ℕ) : Type 0 where
  pub limit : RateLimit
  pub maximum : ℤ
  pub found : get_limit k id ≡ some limit
  pub bounded : limit.max_amount ≡ some maximum
  pub nonneg : pos 0 ≤ℤ a
  pub fits : used_at limit (usage_entry k id) h +ℤ a ≤ℤ maximum

check-HasRoom :
    (k : Keeper) (id : Text) (a : ℤ) (h : ℕ)
    → check_transfer_at_height k id (some a) h ≡ none
    → HasRoom k id a h
unfolding check_transfer_at_height
check-HasRoom k id a h e = elim (Option-cases (get_limit k id)) [
  | inl missing ↦ absurd (ground arith)
  | inr (l, found) ↦ elim (Option-cases l.max_amount) [
    | inl unbounded ↦ absurd (ground arith)
    | inr (m, bounded) ↦ record {
      limit = l;
      maximum = m;
      found = found;
      bounded = bounded;
      nonneg = ground arith;
      fits = ground arith;
    }
  ]
]

HasRoom-check :
    (k : Keeper) (id : Text) (a : ℤ) (h : ℕ)
    → HasRoom k id a h
    → check_transfer_at_height k id (some a) h ≡ none
unfolding check_transfer_at_height
HasRoom-check k id a h r = ground (arith)

pub check-none_iff :
    (k : Keeper) (id : Text) (a : ℤ) (h : ℕ)
    → (check_transfer_at_height k id (some a) h ≡ none) ↔ HasRoom k id a h
check-none_iff k id a h = (check-HasRoom k id a h, HasRoom-check k id a h)

pub record-HasRoom :
    (k : Keeper) (id : Text) (a : ℤ) (h : ℕ) (r : HasRoom k id a h)
    → record_transfer_at_height k id (some a) h ≡ (
      record k {
        usage = insert (trim_space id) (recorded_usage r.limit (usage_entry k id) h a) k.usage;
      },
      none,
    )
unfolding record_transfer_at_height
record-HasRoom k id a h r = ground (arith, HasRoom-check k id a h r)

-- What a recorded transfer changes: one entry of the usage, and no limit.
pub record IsRecorded (k k' : Keeper) (id : Text) (a : ℤ) (h : ℕ) : Type 0 where
  pub room : HasRoom k id a h
  pub entry : usage_entry k' id ≡ recorded_usage room.limit (usage_entry k id) h a
  pub others :
      (other : Text) → trim_space id ≢ trim_space other → usage_entry k' other ≡ usage_entry k other
  pub same_limits : k'.limits ≡ k.limits

record_stopped :
    (k : Keeper) (id : Text) (amount : Option ℤ) (h : ℕ) (e : Error)
    → check_transfer_at_height k id amount h ≡ some e
    → record_transfer_at_height k id amount h ≡ (k, some e)
unfolding record_transfer_at_height
record_stopped k id amount h e stopped = ground arith

pub record-IsRecorded :
    (k : Keeper) (id : Text) (a : ℤ) (h : ℕ)
    → let (k', err) = record_transfer_at_height k id (some a) h in
      ((err ≡ none) × IsRecorded k k' id a h) ⊎ ((err ≢ none) × (k' ≡ k) × ¬ HasRoom k id a h)
record-IsRecorded k id a h = elim (Option-cases (check_transfer_at_height k id (some a) h)) [
  | inl passes ↦ inl (
      let r = check-HasRoom k id a h passes in
      rw (record-HasRoom k id a h r) (
        refl,
        record {
          room = r;
          entry = ap usage_or_zero (lookup-insert_self (trim_space id) _ k.usage);
          others = λ o ne.
              ap usage_or_zero (lookup-insert_ne (trim_space id) (trim_space o) _ k.usage ne);
          same_limits = refl;
        },
      ))
  | inr (e, stopped) ↦ inr (
      rw (record_stopped k id (some a) h e stopped)
        ((λ (q : some e ≡ none). cc), refl, λ r. cc (sym stopped ∙ HasRoom-check k id a h r)))
]

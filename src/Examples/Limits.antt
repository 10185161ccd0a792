-- ===== src/Examples/Limits.antt =====
-- The rate limit of the small chain.
use aegis_link.Common.{
  ℕ, ◌≡◌, refl, sym, inl, inr, Option, none, some, List, [], ◌∷◌, ◌+◌, ◌<◌, All, arith,
}
use aegis_link.Common.Int.{pos, ◌+ℤ◌, ◌≤ℤ◌}
use aegis_link.Text.{Text, lit}
use aegis_link.Limits.{
  Keeper, new_keeper, set_limit, check_transfer_at_height, record_transfer_at_height,
}
use aegis_link.Limits.Budget.{OpenWindow, record_all, window_budget}
use aegis_link.Limits.Genesis.{IsSpentAtZero, spent_at_zero_is_locked}
use aegis_link.Limits.Snapshot.{export_state, import_state}
use aegis_link.Limits.Snapshot.Stored.{new, set, transfer}
use aegis_link.Limits.Snapshot.Restore.{import-export_reachable}
use aegis_link.Examples.Data.{limits, daily_limit}

-- After 60 of 100 at height 5.
abbrev used : Keeper
used = (record_transfer_at_height limits (lit "eth") (some (pos 60)) 5).0

used_open : OpenWindow used (lit "eth") daily_limit (pos 100) 5 (pos 60)
unfolding record_transfer_at_height aegis_link.Limits.check_transfer_at_height
    aegis_link.Common.Map.lookup aegis_link.Limits.set_limit aegis_link.Text.text_beq
    aegis_link.Text.trim_space aegis_link.Common.Map.insert aegis_link.Limits.new_keeper ◌+ℤ◌
    aegis_link.Limits.active_usage aegis_link.Limits.recorded_usage
used_open = record {
  found = refl;
  bounded = refl;
  began = refl;
  spent = refl;
  started = omega arith;
  no_wrap = omega arith;
}

window_budget_example :
    let (k', total) = record_all used (lit "eth") ((pos 30, 7) ∷ (pos 20, 9) ∷ (pos 10, 14) ∷ []) in
    OpenWindow k' (lit "eth") daily_limit (pos 100) 5 (pos 60 +ℤ total)
    × (pos 60 +ℤ total ≤ℤ pos 100)
window_budget_example =
    window_budget used (lit "eth") daily_limit (pos 100) 5 (pos 60)
      ((pos 30, 7) ∷ (pos 20, 9) ∷ (pos 10, 14) ∷ []) used_open (omega arith)
      (omega arith, (omega arith, (omega arith, tt)))

abbrev after_transfer : Keeper
after_transfer =
    (record_transfer_at_height (set_limit new_keeper daily_limit).0 (lit "eth") (some (pos 60)) 5).0

import-export_reachable_example :
    import_state new_keeper (export_state after_transfer) ≡ (after_transfer, none)
import-export_reachable_example =
    import-export_reachable after_transfer new_keeper
      (transfer (lit "eth") (some (pos 60)) 5 (set daily_limit new))

-- The whole of 100 at height 0.
abbrev spent : Keeper
spent = (record_transfer_at_height limits (lit "eth") (some (pos 100)) 0).0

spent-IsSpentAtZero : IsSpentAtZero spent (lit "eth") daily_limit (pos 100)
unfolding record_transfer_at_height aegis_link.Limits.check_transfer_at_height
    aegis_link.Common.Map.lookup aegis_link.Limits.set_limit aegis_link.Text.text_beq
    aegis_link.Text.trim_space aegis_link.Common.Map.insert aegis_link.Limits.new_keeper ◌+ℤ◌
    aegis_link.Limits.active_usage aegis_link.Limits.recorded_usage
spent-IsSpentAtZero = record { found = refl; bounded = refl; began = refl; spent = refl }

spent_at_zero_is_locked_example :
    record_all spent (lit "eth") ((pos 1, 10) ∷ (pos 100, 1000000) ∷ []) ≡ (spent, pos 0)
spent_at_zero_is_locked_example =
    spent_at_zero_is_locked spent (lit "eth") daily_limit (pos 100)
      ((pos 1, 10) ∷ (pos 100, 1000000) ∷ []) spent-IsSpentAtZero (omega arith, (omega arith, tt))

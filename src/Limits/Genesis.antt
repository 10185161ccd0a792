-- ===== src/Limits/Genesis.antt =====
-- Windows of x/limits that opened at height 0, the height of a new chain: a start of 0 stands for
-- no start.
use mathlib.Core.Path.{subst₂}
use aegis_link.Common.{ℕ, ◌≡◌, refl, ◌∙◌, sym, ap, some, List, [], ◌∷◌, All, arith, inl, inr}
use aegis_link.Common.Int.{ℤ, pos, ◌+ℤ◌, ◌≤ℤ◌, int_laws}
use aegis_link.Text.{Text}
use aegis_link.Limits.{
  RateLimit, WindowUsage, Keeper, get_limit, usage_entry, clone_big_int, active_usage,
  record_transfer_at_height,
}
use aegis_link.Limits.Window.{HasRoom, record-IsRecorded, used_at}
use aegis_link.Limits.Budget.{record_all, when_none, when_none_some}

-- An asset whose whole maximum was used in a window that opened at height 0.
pub record IsSpentAtZero (k : Keeper) (id : Text) (l : RateLimit) (m : ℤ) : Type 0 where
  pub found : get_limit k id ≡ some l
  pub bounded : l.max_amount ≡ some m
  pub began : (usage_entry k id).window_start ≡ 0
  pub spent : clone_big_int (usage_entry k id).used_amount ≡ m

used_at_zero :
    (l : RateLimit) (u : WindowUsage) (h : ℕ)
    → u.window_start ≡ 0
    → used_at l u h ≡ clone_big_int u.used_amount
unfolding active_usage
used_at_zero l u h began = ground arith

no_room :
    (k : Keeper) (id : Text) (l : RateLimit) (m a : ℤ) (h : ℕ)
    → IsSpentAtZero k id l m
    → pos 1 ≤ℤ a
    → ¬ HasRoom k id a h
no_room k id l m a h w positive r =
    let own : l ≡ r.limit = cc (sym w.found ∙ r.found) in
    let most : m ≡ r.maximum =
      cc (sym w.bounded ∙ ap (λ (x : RateLimit). x.max_amount) own ∙ r.bounded) in
    let used = used_at_zero r.limit (usage_entry k id) h w.began ∙ w.spent in
    let fits : m +ℤ a ≤ℤ m = subst₂ (λ x y. x +ℤ a ≤ℤ y) used (sym most) r.fits in omega int_laws

-- An asset whose whole maximum was used in a window that opened at height 0 is locked: whatever
-- positive amounts are tried, at whatever heights, however late, nothing is let through and nothing
-- changes.
pub spent_at_zero_is_locked :
    (k : Keeper) (id : Text) (l : RateLimit) (m : ℤ) (ts : List (ℤ × ℕ))
    → IsSpentAtZero k id l m
    → All (λ t. pos 1 ≤ℤ t.0) ts
    → record_all k id ts ≡ (k, pos 0)
unfolding record_all
spent_at_zero_is_locked k id l m [] w positive = refl
spent_at_zero_is_locked k id l m ((a, h) ∷ ts) w (now, later) = elim (record-IsRecorded k id a h) [
  | inl (passed, r) ↦ absurd (no_room k id l m a h w now r.room)
  | inr (failed, same, full) ↦
      let e = (record_transfer_at_height k id (some a) h).1 in
      let zero_sum : pos 0 +ℤ pos 0 ≡ pos 0 = omega int_laws in
      ap (λ x. ((record_all x id ts).0, when_none e a +ℤ (record_all x id ts).1)) same
      ∙ ap (λ (x : Keeper × ℤ). (x.0, when_none e a +ℤ x.1))
          (spent_at_zero_is_locked k id l m ts w later)
      ∙ ap (λ v. (k, v +ℤ pos 0)) (when_none_some e a failed)
      ∙ ap (λ v. (k, v)) zero_sum
]

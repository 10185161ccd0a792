-- ===== src/Limits/Budget.antt =====
-- Many transfers: what a window lets through, and that it is no sliding window.
use aegis_link.Common.{
  ℕ, ◌+◌, ◌^◌, ◌<◌, ◌≡◌, ◌≢◌, refl, inl, inr, Option, none, some, List, [], ◌∷◌, arith, All, ap,
  sym, ◌∙◌,
}
use mathlib.Core.Path.{subst, subst₂}
use aegis_link.Common.Int.{ℤ, pos, ◌+ℤ◌, ◌≤ℤ◌, int_laws}
use aegis_link.Common.Map.{Map, lookup}
use aegis_link.Text.{Text, text_eq, trim_space}
use aegis_link.Errors.{Error}
use aegis_link.Limits.{
  RateLimit, WindowUsage, Keeper, get_limit, usage_entry, clone_big_int, active_usage,
  record_transfer_at_height, recorded_usage,
}
use aegis_link.Limits.Window.{HasRoom, IsRecorded, record-IsRecorded}

-- A window of an asset that began at height `start`, with the limit that holds and what is used of
-- it.
pub record OpenWindow (k : Keeper) (id : Text) (l : RateLimit) (maximum : ℤ) (start : ℕ) (used : ℤ)
    : Type 0 where
  pub found : get_limit k id ≡ some l
  pub bounded : l.max_amount ≡ some maximum
  pub began : (usage_entry k id).window_start ≡ start
  pub spent : clone_big_int (usage_entry k id).used_amount ≡ used
  pub started : 0 < start
  pub no_wrap : start + l.window_blocks < 2 ^ 64

pub recorded_open :
    (l : RateLimit) (u : WindowUsage) (h : ℕ) (a : ℤ)
    → 0 < u.window_start
    → h < u.window_start + l.window_blocks
    → u.window_start + l.window_blocks < 2 ^ 64
    → (clone_big_int (active_usage l u h).used_amount ≡ clone_big_int u.used_amount)
      × ((recorded_usage l u h a).window_start ≡ u.window_start)
      × (clone_big_int (recorded_usage l u h a).used_amount ≡ clone_big_int u.used_amount +ℤ a)
unfolding active_usage recorded_usage
recorded_open l u h a p q r = ground arith

module _ (k k' : Keeper) (id : Text) (l : RateLimit) (m : ℤ) (start : ℕ) (used a : ℤ) (h : ℕ)
    (w : OpenWindow k id l m start used) (before : h < start + l.window_blocks)
    (r : IsRecorded k k' id a h) where
  same_limit : r.room.limit ≡ l
  same_limit = cc (sym r.room.found ∙ w.found)

  same_maximum : r.room.maximum ≡ m
  same_maximum =
      cc (sym r.room.bounded ∙ ap (λ (x : RateLimit). x.max_amount) same_limit ∙ w.bounded)

  entry_of_limit : usage_entry k' id ≡ recorded_usage l (usage_entry k id) h a
  entry_of_limit = r.entry ∙ ap (λ x. recorded_usage x (usage_entry k id) h a) same_limit

  goes_on :
      (clone_big_int (active_usage l (usage_entry k id) h).used_amount
        ≡ clone_big_int (usage_entry k id).used_amount)
      × ((recorded_usage l (usage_entry k id) h a).window_start ≡ (usage_entry k id).window_start)
      × (clone_big_int (recorded_usage l (usage_entry k id) h a).used_amount
          ≡ clone_big_int (usage_entry k id).used_amount +ℤ a)
  goes_on =
      recorded_open l (usage_entry k id) h a (rw w.began w.started) (rw w.began before)
        (rw w.began w.no_wrap)

  OpenWindow-next : OpenWindow k' id l m start (used +ℤ a)
  OpenWindow-next = record {
    found = ap (λ (x : Map Text RateLimit). lookup (trim_space id) x) r.same_limits ∙ w.found;
    bounded = w.bounded;
    began = ap (λ (u : WindowUsage). u.window_start) entry_of_limit ∙ goes_on.1 ∙ w.began;
    spent =
        ap (λ (u : WindowUsage). clone_big_int u.used_amount) entry_of_limit
        ∙ goes_on.2
        ∙ ap (λ x. x +ℤ a) w.spent;
    started = w.started;
    no_wrap = w.no_wrap;
  }

  next-le-maximum : used +ℤ a ≤ℤ m
  next-le-maximum =
      let fits : clone_big_int (active_usage l (usage_entry k id) h).used_amount +ℤ a ≤ℤ m =
        subst₂
          (λ (x : RateLimit) (y : ℤ).
            clone_big_int (active_usage x (usage_entry k id) h).used_amount +ℤ a ≤ℤ y)
          same_limit same_maximum r.room.fits in
      subst (λ (x : ℤ). x +ℤ a ≤ℤ m) (goes_on.0 ∙ w.spent) fits

abbrev pub when_none : Option Error → ℤ → ℤ
when_none none a = a
when_none (some e) a = pos 0

pub when_none_some : (err : Option Error) (a : ℤ) → err ≢ none → when_none err a ≡ pos 0
when_none_some none a h = absurd (h refl)
when_none_some (some e) a h = refl

-- One transfer before the window ends: the window goes on with what is let through.
step-OpenWindow :
    (k : Keeper) (id : Text) (l : RateLimit) (m : ℤ) (start : ℕ) (used a : ℤ) (h : ℕ)
    → OpenWindow k id l m start used
    → used ≤ℤ m
    → h < start + l.window_blocks
    → let (k', err) = record_transfer_at_height k id (some a) h in
      OpenWindow k' id l m start (used +ℤ when_none err a) × (used +ℤ when_none err a ≤ℤ m)
step-OpenWindow k id l m start used a h w fits before = elim (record-IsRecorded k id a h) [
  | inr (failed, same, full) ↦
      let unchanged : used +ℤ pos 0 ≡ used = omega int_laws in
      rw (when_none_some _ a failed) (rw (unchanged, same) (w, fits))
  | inl (passed, r) ↦ rw passed (
    OpenWindow-next k _ id l m start used a h w before r,
    next-le-maximum k _ id l m start used a h w before r,
  )
]

-- A list of transfers of one asset with their heights, and the sum of the amounts let through.
unfoldable pub record_all : Keeper → Text → List (ℤ × ℕ) → Keeper × ℤ
record_all k id [] = (k, pos 0)
record_all k id ((a, h) ∷ rest) =
    let (k', err) = record_transfer_at_height k id (some a) h in
    let (k'', total) = record_all k' id rest in (k'', when_none err a +ℤ total)

-- However many transfers of an asset are tried before its window ends, in any order, the amounts
-- that are let through and what was used before add up to at most the maximum of the limit; the
-- keeper has kept account of them exactly.
pub window_budget :
    (k : Keeper) (id : Text) (l : RateLimit) (m : ℤ) (start : ℕ) (used : ℤ) (ts : List (ℤ × ℕ))
    → OpenWindow k id l m start used
    → used ≤ℤ m
    → All (λ t. t.1 < start + l.window_blocks) ts
    → let (k', total) = record_all k id ts in
      OpenWindow k' id l m start (used +ℤ total) × (used +ℤ total ≤ℤ m)
unfolding record_all
window_budget k id l m start used [] w fits before =
    let unchanged : used +ℤ pos 0 ≡ used = omega int_laws in rw unchanged (w, fits)
window_budget k id l m start used ((a, h) ∷ rest) w fits (now, later) =
    let (k', err) = record_transfer_at_height k id (some a) h in
    let (w', fits') = step-OpenWindow k id l m start used a h w fits now in
    let ih = window_budget k' id l m start (used +ℤ when_none err a) rest w' fits' later in
    let regroup : used +ℤ (when_none err a +ℤ (record_all k' id rest).1)
        ≡ used +ℤ when_none err a +ℤ (record_all k' id rest).1 =
      omega int_laws in
    rw regroup ih

-- Where there is room before the end, the transfer is recorded and the window goes on.
pub record_OpenWindow :
    (k : Keeper) (id : Text) (l : RateLimit) (m : ℤ) (start : ℕ) (used a : ℤ) (h : ℕ)
    → OpenWindow k id l m start used
    → h < start + l.window_blocks
    → HasRoom k id a h
    → let (k', err) = record_transfer_at_height k id (some a) h in
      (err ≡ none) × OpenWindow k' id l m start (used +ℤ a)
record_OpenWindow k id l m start used a h w before room = elim (record-IsRecorded k id a h) [
  | inr (failed, same, full) ↦ absurd (full room)
  | inl (passed, r) ↦ (passed, OpenWindow-next k _ id l m start used a h w before r)
]

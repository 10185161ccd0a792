-- ===== src/Relayer/Watcher/Range.antt =====
-- What the watchers of relayer/internal report: nothing new, or all of a range that ends at a final
-- number.
use aegis_link.Common.{
  ℕ, ◌-◌, ◌≤◌, ◌≡◌, refl, ◌⊎◌, inl, inr, Bool, true, false, List, [], slice_stable, arith,
  Bool-cases, ltb,
}
use aegis_link.Relayer.Services.{Answer, answer, failed}
use aegis_link.Relayer.Watcher.{Watcher, observe, observe_until, observed, next_cursor}

module _ {W A : Type 0} (watcher : Watcher W A) (from : ℕ) where
  -- What was answered for the range from `from` to a tip, sorted, with the cursor after the tip.
  pub record IsRange (w' : W) (items : List A) (cursor : ℕ) : Type 0 where
    pub start : W
    pub tip : ℕ
    pub found : List A
    pub not_before : from ≤ tip
    pub answered : watcher.source.between start from tip ≡ (w', answer found)
    pub sorted : items ≡ slice_stable watcher.less found
    pub next : cursor ≡ next_cursor tip

  abbrev pub Reported : W → List A → ℕ → Type 0
  Reported w' items cursor = ((items ≡ []) × (cursor ≡ from)) ⊎ IsRange w' items cursor

  observed-IsRange :
      (tip : ℕ) (start : W) (reply : W × Answer (List A)) (w' : W) (items : List A) (cursor : ℕ)
      → from ≤ tip
      → watcher.source.between start from tip ≡ reply
      → observed watcher from tip reply ≡ (w', answer (items, cursor))
      → IsRange w' items cursor
  unfolding observed
  observed-IsRange tip start (w, failed f) w' items cursor long q e = absurd (ground arith)
  observed-IsRange tip start (w, answer xs) w' items cursor long q e = record {
    start = start;
    tip = tip;
    found = xs;
    not_before = long;
    answered = ground (arith);
    sorted = ground arith;
    next = ground arith;
  }

  observe_until-cases :
      (reply : W × Answer ℕ) (w' : W) (items : List A) (cursor : ℕ)
      → observe_until watcher from reply ≡ (w', answer (items, cursor))
      → Reported w' items cursor
  unfolding observe_until
  observe_until-cases (w, failed f) w' items cursor e = absurd (ground arith)
  observe_until-cases (w, answer latest) w' items cursor e =
      elim (Bool-cases (ltb latest watcher.confirmations)) [
        | inl early ↦ inl (ground arith)
        | inr late ↦ elim (Bool-cases (ltb (latest - watcher.confirmations) from)) [
          | inl short ↦ inl (ground arith)
          | inr long ↦ inr (
              observed-IsRange (latest - watcher.confirmations) w _ w' items cursor (ground arith)
                refl (ground arith))
        ]
      ]

  pub observe-cases :
      (is_cancelled : Bool) (w w' : W) (items : List A) (cursor : ℕ)
      → observe watcher from is_cancelled w ≡ (w', answer (items, cursor))
      → Reported w' items cursor
  unfolding observe
  observe-cases true w w' items cursor e = absurd (ground arith)
  observe-cases false w w' items cursor e = elim (Bool-cases watcher.source.connected) [
    | inl connected ↦ observe_until-cases (watcher.source.latest w) w' items cursor (ground arith)
    | inr apart ↦ absurd (ground arith)
  ]

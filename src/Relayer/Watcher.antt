-- ===== src/Relayer/Watcher.antt =====
-- The two watchers, relayer/internal/evm/watcher.go and relayer/internal/cosmos/watcher.go, which
-- differ in what they watch and in its order.
pub mod Range
use aegis_link.Common.{
  ℕ, ◌+◌, ◌-◌, ◌^◌, ◌<◌, ◌≤◌, ◌≡◌, refl, Bool, true, false, List, [], if◌then◌else◌, ltb, nat_beq,
  slice_stable, arith,
}
use aegis_link.Relayer.Services.{Failure, Answer, answer, failed, cancelled, source_unavailable}

-- A source of what is watched, in a world that answers: its last number, and what it has from one
-- number to another.
pub record Source (W A : Type 0) : Type 0 where
  pub connected : Bool
  pub latest : W → W × Answer ℕ
  pub between : W → ℕ → ℕ → W × Answer (List A)

pub record Watcher (W A : Type 0) : Type 0 where
  pub source : Source W A
  pub confirmations : ℕ
  pub less : A → A → Bool

-- The cursor after a tip: the next number, or the tip itself if that is the last of a uint64.
abbrev pub next_cursor : ℕ → ℕ
next_cursor tip = if nat_beq tip (2 ^ 64 - 1) then tip else tip + 1

module _ {W A : Type 0} (watcher : Watcher W A) (from : ℕ) where
  unfoldable pub observed : ℕ → W × Answer (List A) → W × Answer (List A × ℕ)
  observed tip (w, failed f) = (w, failed f)
  observed tip (w, answer items) = (w, answer (slice_stable watcher.less items, next_cursor tip))

  -- From the last number on.
  unfoldable pub observe_until : W × Answer ℕ → W × Answer (List A × ℕ)
  unfolding observed
  observe_until (w, failed f) = (w, failed f)
  observe_until (w, answer latest) =
      if ltb latest watcher.confirmations
      then (w, answer ([], from))
      else if ltb (latest - watcher.confirmations) from
      then (w, answer ([], from))
      else observed (latest - watcher.confirmations)
          (watcher.source.between w from (latest - watcher.confirmations))

  -- `Watcher.Observe`; where it fails, Go also returns the number it was given.
  unfoldable pub observe : Bool → W → W × Answer (List A × ℕ)
  unfolding observe_until
  observe is_cancelled w =
      if is_cancelled
      then (w, failed cancelled)
      else if watcher.source.connected
      then observe_until (watcher.source.latest w)
      else (w, failed source_unavailable)

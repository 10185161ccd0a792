-- ===== src/Relayer/Daemon.antt =====
-- The two loops around a pass: `Daemon.Run` of relayer/internal/pipeline/daemon.go and
-- `Relayer.RunLoop` of relayer/internal/route/relay.go. The state of a pass holds the world, which
-- says whether the context is cancelled. A loop has fuel, one unit for each pass, and is `none`
-- where it runs out.
pub mod Ends
use aegis_link.Common.{
  ℕ, ◌+◌, suc, zero, Bool, true, false, ◌&&◌, not, Option, none, some, List, [], ◌∷◌, ◌++◌,
  if◌then◌else◌, leb,
}
use aegis_link.Common.Int.{ℤ, pos, is_positive, pos_part}
use aegis_link.Relayer.Services.{Failure, is_temporary}

-- `DaemonConfig` and `LoopConfig`: durations in nanoseconds.
pub record LoopConfig : Type 0 where
  pub poll_interval : ℤ
  pub failure_backoff : ℤ
  pub max_consecutive_runs : ℤ

-- `DaemonEvent` and `LoopEvent`
pub record LoopEvent (X : Type 0) : Type 0 where
  pub iteration : ℕ
  pub summary : X
  pub error : Option Failure
  pub temporary : Bool
  pub consecutive_failures : ℕ

-- The defaults of `NewDaemon` and of `RunLoop`: a second, and five.
unfoldable pub with_defaults : LoopConfig → LoopConfig
with_defaults cfg = record cfg {
  poll_interval = if is_positive cfg.poll_interval then cfg.poll_interval else pos 1000000000;
  failure_backoff = if is_positive cfg.failure_backoff then cfg.failure_backoff else pos 5000000000;
}

-- What a loop's passes are, and its waits, which tell whether the context was cancelled meanwhile.
pub record Passing (S X : Type 0) : Type 0 where
  pub run_once : S → S × X × Option Failure
  pub is_cancelled : S → Bool
  pub wait_for_next_run : S → ℤ → S × Bool

-- The state in which a loop ends, the events that it has emitted and the error that it returns.
abbrev pub Ended : Type 0 → Type 0 → Type 0
Ended S X = S × List (LoopEvent X) × Option Failure

-- `cfg.MaxConsecutiveRuns > 0 && iteration >= cfg.MaxConsecutiveRuns`
abbrev pub reached : LoopConfig → ℕ → Bool
reached cfg iteration =
    is_positive cfg.max_consecutive_runs && leb (pos_part cfg.max_consecutive_runs) iteration

module _ {S X : Type 0} (passing : Passing S X) (cfg : LoopConfig) where
  -- The end of an iteration: the limit of runs, then the wait.
  unfoldable pub go_on :
      ℕ → S → ℤ → List (LoopEvent X) → (S → Option (Ended S X)) → Option (Ended S X)
  go_on iteration s delay events next =
      if reached cfg iteration
      then some (s, events, none)
      else let (s', ended) = passing.wait_for_next_run s delay in
        if ended then some (s', events, none) else next s'

  -- An iteration after its pass; `next` is the next one, from the failures in a row, the state and
  -- the events.
  unfoldable pub after_run :
      ℕ
      → ℕ
      → List (LoopEvent X)
      → (ℕ → List (LoopEvent X) → S → Option (Ended S X))
      → S × X × Option Failure
      → Option (Ended S X)
  unfolding go_on
  after_run iteration failures events next (s, summary, none) =
      let event : LoopEvent X = record {
        iteration = iteration;
        summary = summary;
        error = none;
        temporary = false;
        consecutive_failures = 0;
      } in
      go_on iteration s cfg.poll_interval (events ++ event ∷ []) (next 0 (events ++ event ∷ []))
  after_run iteration failures events next (s, summary, some f) =
      let failures' = if is_temporary f then failures + 1 else failures in
      let event : LoopEvent X = record {
        iteration = iteration;
        summary = summary;
        error = some f;
        temporary = is_temporary f;
        consecutive_failures = failures';
      } in
      if passing.is_cancelled s
      then some (s, events, none)
      else if not (is_temporary f)
      then some (s, events ++ event ∷ [], some f)
      else go_on iteration s cfg.failure_backoff (events ++ event ∷ [])
          (next failures' (events ++ event ∷ []))

  -- The loop from an iteration on.
  unfoldable pub loop : ℕ → ℕ → ℕ → List (LoopEvent X) → S → Option (Ended S X)
  unfolding after_run
  loop zero iteration failures events s = none
  loop (suc fuel) iteration failures events s = elim (passing.is_cancelled s) [
    | true ↦ some (s, events, none)
    | false ↦
        after_run iteration failures events
          (λ failures' events' s'. loop fuel (iteration + 1) failures' events' s')
          (passing.run_once s)
  ]

-- `NewDaemon` and `Run`, and likewise `RunLoop`.
unfoldable pub run : {S X : Type 0} → Passing S X → LoopConfig → ℕ → S → Option (Ended S X)
unfolding loop with_defaults
run passing cfg fuel s = loop passing (with_defaults cfg) fuel 1 0 [] s

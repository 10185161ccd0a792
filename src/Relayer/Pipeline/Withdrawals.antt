-- ===== src/Relayer/Pipeline/Withdrawals.antt =====
-- Withdrawals: `runWithdrawals` and `releaseWithRetry` of relayer/internal/pipeline/pipeline.go.
use aegis_link.Common.{ℕ, ◌+◌, true, false, Option, none, some, List, [], ◌∷◌, ◌++◌, length}
use aegis_link.Text.{Text}
use aegis_link.Crypto.{Crypto}
use aegis_link.Relayer.Services.{Failure, Answer, answer, failed}
use aegis_link.Relayer.Replay.{checkpoint, is_processed}
use aegis_link.Relayer.Watcher.{observe}
use aegis_link.Relayer.Evm.{ReleaseRequest, release_guard}
use aegis_link.Relayer.Cosmos.{
  Withdrawal, release_request, withdrawal_replay_key, withdrawal_validate,
}
use aegis_link.Relayer.Pipeline.State.{
  Services, Config, Relay, Run, and_then, attempts_of, retry, guarded, withdrawal_checkpoint_key,
  mark, save,
}

module _ (crypto : Crypto) {W : Type 0} (services : Services W) (cfg : Config) where
  -- `Releaser.ReleaseWithdrawal`
  unfoldable pub release_withdrawal : ReleaseRequest → W → W × Option Failure
  release_withdrawal request w =
      guarded (release_guard (services.is_cancelled w) request) w (services.target w request)

  unfoldable pub release_with_retry : ReleaseRequest → W → W × ℕ × Option Failure
  unfolding retry release_withdrawal
  release_with_retry request w =
      retry (release_withdrawal request) (attempts_of cfg) (attempts_of cfg) 1 none w

  -- After the attempts to release a withdrawal.
  abbrev pub release_ended : Relay W → Text → W × ℕ × Option Failure → Run W
  release_ended r key (w, attempts, some f) = (
    record r {
      world = w;
      summary = record r.summary {
        withdrawal_release_attempts = r.summary.withdrawal_release_attempts + attempts;
      };
    },
    some f,
  )
  release_ended r key (w, attempts, none) =
      mark services
        (record r {
          world = w;
          released = r.released ++ key ∷ [];
          summary = record r.summary {
            withdrawal_release_attempts = r.summary.withdrawal_release_attempts + attempts;
            withdrawals_released = r.summary.withdrawals_released + 1;
          };
        })
        key

  -- The body of the loop of `runWithdrawals`.
  unfoldable pub run_withdrawal : Relay W → Withdrawal → Run W
  run_withdrawal r withdrawal =
      let key = withdrawal_replay_key crypto withdrawal in
      elim (is_processed r.store key) [
        | true ↦ (
          record r {
            summary = record r.summary {
              duplicate_withdrawals = r.summary.duplicate_withdrawals + 1;
            };
          },
          none,
        )
        | false ↦ elim (withdrawal_validate crypto withdrawal) [
          | some f ↦ (r, some f)
          | none ↦ release_ended r key (release_with_retry (release_request withdrawal) r.world)
        ]
      ]

  unfoldable pub run_each_withdrawal : Relay W → List Withdrawal → Run W
  unfolding run_withdrawal
  run_each_withdrawal r [] = (r, none)
  run_each_withdrawal r (w ∷ ws) = and_then (run_withdrawal r w) (λ r'. run_each_withdrawal r' ws)

  abbrev pub end_withdrawals : ℕ → Relay W → Run W
  end_withdrawals cursor r =
      and_then (save services r withdrawal_checkpoint_key cursor) (λ r'.
        (record r' { summary = record r'.summary { withdrawal_next_cursor = cursor } }, none))

  abbrev pub withdrawals_observed : Relay W → W × Answer (List Withdrawal × ℕ) → Run W
  withdrawals_observed r (w, failed f) = (record r { world = w }, some f)
  withdrawals_observed r (w, answer (items, cursor)) =
      and_then
        (run_each_withdrawal
          (record r {
            world = w;
            summary = record r.summary { withdrawals_observed = length items };
          })
          items)
        (end_withdrawals cursor)

  unfoldable pub run_withdrawals : Relay W → Run W
  unfolding run_each_withdrawal
  run_withdrawals r =
      let from = checkpoint r.store withdrawal_checkpoint_key in
      withdrawals_observed
        (record r { summary = record r.summary { withdrawal_from_height = from } })
        (observe services.withdrawal_watcher from (services.is_cancelled r.world) r.world)

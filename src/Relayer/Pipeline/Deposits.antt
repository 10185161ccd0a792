-- ===== src/Relayer/Pipeline/Deposits.antt =====
-- Deposits: `runDeposits` and `submitWithRetry` of relayer/internal/pipeline/pipeline.go.
use aegis_link.Common.{ℕ, ◌+◌, true, false, Option, none, some, List, [], ◌∷◌, ◌++◌, length}
use aegis_link.Text.{Text}
use aegis_link.Crypto.{Crypto}
use aegis_link.Bridge.Claim.{DepositClaim, claim_digest, deposit_validate_basic}
use aegis_link.Bridge.Attestation.{Attestation}
use aegis_link.Relayer.Services.{Failure, refused, Answer, answer, failed}
use aegis_link.Relayer.Replay.{checkpoint, is_processed}
use aegis_link.Relayer.Watcher.{observe}
use aegis_link.Relayer.Evm.{DepositEvent, event_replay_key, event_claim}
use aegis_link.Relayer.Cosmos.{submit_guard}
use aegis_link.Relayer.Pipeline.State.{
  Services, Config, Relay, Run, and_then, attempts_of, retry, guarded, deposit_checkpoint_key, mark,
  save,
}

module _ (crypto : Crypto) {W : Type 0} (services : Services W) (cfg : Config) where
  -- `Submitter.SubmitDepositClaim`
  unfoldable pub submit_deposit_claim : DepositClaim → Attestation → W → W × Option Failure
  submit_deposit_claim claim attestation w =
      guarded (submit_guard crypto (services.is_cancelled w) claim attestation) w
        (services.sink w claim attestation)

  unfoldable pub submit_with_retry : DepositClaim → Attestation → W → W × ℕ × Option Failure
  unfolding retry submit_deposit_claim
  submit_with_retry claim attestation w =
      retry (submit_deposit_claim claim attestation) (attempts_of cfg) (attempts_of cfg) 1 none w

  -- After the attempts to submit the claim of an event.
  abbrev pub submit_ended : Relay W → Text → W × ℕ × Option Failure → Run W
  submit_ended r key (w, attempts, some f) = (
    record r {
      world = w;
      summary = record r.summary {
        deposit_submit_attempts = r.summary.deposit_submit_attempts + attempts;
      };
    },
    some f,
  )
  submit_ended r key (w, attempts, none) =
      mark services
        (record r {
          world = w;
          submitted = r.submitted ++ key ∷ [];
          summary = record r.summary {
            deposit_submit_attempts = r.summary.deposit_submit_attempts + attempts;
            deposits_submitted = r.summary.deposits_submitted + 1;
          };
        })
        key

  abbrev pub collect_ended : Relay W → Text → DepositClaim → W × Answer Attestation → Run W
  collect_ended r key claim (w, failed f) = (record r { world = w }, some f)
  collect_ended r key claim (w, answer attestation) =
      submit_ended (record r { world = w }) key (submit_with_retry claim attestation w)

  -- The body of the loop of `runDeposits`.
  unfoldable pub run_deposit : Relay W → DepositEvent → Run W
  run_deposit r event =
      let key = event_replay_key crypto event in
      let claim = event_claim crypto event cfg.cosmos_chain_id in
      elim (is_processed r.store key) [
        | true ↦ (
          record r {
            summary = record r.summary { duplicate_deposits = r.summary.duplicate_deposits + 1 };
          },
          none,
        )
        | false ↦ elim (deposit_validate_basic crypto claim) [
          | some e ↦ (r, some (refused e))
          | none ↦
              collect_ended r key claim
                (services.collect r.world claim.identity.message_id (claim_digest crypto claim))
        ]
      ]

  unfoldable pub run_events : Relay W → List DepositEvent → Run W
  unfolding run_deposit
  run_events r [] = (r, none)
  run_events r (event ∷ events) = and_then (run_deposit r event) (λ r'. run_events r' events)

  -- The end of `runDeposits`, with the cursor to save.
  abbrev pub end_deposits : ℕ → Relay W → Run W
  end_deposits cursor r =
      and_then (save services r deposit_checkpoint_key cursor)
        (λ r'. (record r' { summary = record r'.summary { deposit_next_cursor = cursor } }, none))

  abbrev pub deposits_observed : Relay W → W × Answer (List DepositEvent × ℕ) → Run W
  deposits_observed r (w, failed f) = (record r { world = w }, some f)
  deposits_observed r (w, answer (events, cursor)) =
      and_then
        (run_events
          (record r { world = w; summary = record r.summary { deposits_observed = length events } })
          events)
        (end_deposits cursor)

  unfoldable pub run_deposits : Relay W → Run W
  unfolding run_events
  run_deposits r =
      let from = checkpoint r.store deposit_checkpoint_key in
      deposits_observed (record r { summary = record r.summary { deposit_from_block = from } })
        (observe services.deposit_watcher from (services.is_cancelled r.world) r.world)

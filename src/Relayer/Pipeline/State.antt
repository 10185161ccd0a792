-- ===== src/Relayer/Pipeline/State.antt =====
-- The state and the services of a pass of relayer/internal/pipeline/pipeline.go, and what its two
-- halves share. The services are functions of a world, which each call may change. `submitted` and
-- `released` are no part of the code's state: they list the replay keys of the calls that have
-- succeeded, in their order, so that statements can speak of them.
use aegis_link.Common.{
  ℕ, ◌+◌, suc, zero, Bool, not, ◌||◌, Option, none, some, List, if◌then◌else◌, nat_beq,
}
use aegis_link.Common.Int.{ℤ, pos, negsuc}
use aegis_link.Text.{Text, lit}
use aegis_link.Bridge.Claim.{DepositClaim}
use aegis_link.Bridge.Attestation.{Attestation}
use aegis_link.Relayer.Services.{Failure, is_temporary, Answer}
use aegis_link.Relayer.Replay.{Store, mark_processed, save_checkpoint}
use aegis_link.Relayer.Watcher.{Watcher}
use aegis_link.Relayer.Evm.{DepositEvent, ReleaseRequest}
use aegis_link.Relayer.Cosmos.{Withdrawal}

abbrev pub deposit_checkpoint_key : Text
deposit_checkpoint_key = lit "evm-deposits"

abbrev pub withdrawal_checkpoint_key : Text
withdrawal_checkpoint_key = lit "cosmos-withdrawals"

pub record Services (W : Type 0) : Type 0 where
  pub is_cancelled : W → Bool
  pub deposit_watcher : Watcher W DepositEvent
  pub withdrawal_watcher : Watcher W Withdrawal
  pub collect : W → Text → Text → W × Answer Attestation
  -- the sink of the Submitter and the target of the Releaser
  pub sink : W → DepositClaim → Attestation → W × Option Failure
  pub target : W → ReleaseRequest → W × Option Failure
  -- the error of writing the replay store's file
  pub persist : W → Store → Option Failure

-- What the coordinator uses of its Config.
pub record Config : Type 0 where
  pub cosmos_chain_id : Text
  pub submission_retry_limit : ℤ

pub record RunSummary : Type 0 where
  pub deposit_from_block : ℕ
  pub deposit_next_cursor : ℕ
  pub deposits_observed : ℕ
  pub duplicate_deposits : ℕ
  pub deposits_submitted : ℕ
  pub deposit_submit_attempts : ℕ
  pub withdrawal_from_height : ℕ
  pub withdrawal_next_cursor : ℕ
  pub withdrawals_observed : ℕ
  pub duplicate_withdrawals : ℕ
  pub withdrawals_released : ℕ
  pub withdrawal_release_attempts : ℕ

abbrev pub empty_summary : RunSummary
empty_summary = record {
  deposit_from_block = 0;
  deposit_next_cursor = 0;
  deposits_observed = 0;
  duplicate_deposits = 0;
  deposits_submitted = 0;
  deposit_submit_attempts = 0;
  withdrawal_from_height = 0;
  withdrawal_next_cursor = 0;
  withdrawals_observed = 0;
  duplicate_withdrawals = 0;
  withdrawals_released = 0;
  withdrawal_release_attempts = 0;
}

pub record Relay (W : Type 0) : Type 0 where
  pub store : Store
  pub world : W
  pub summary : RunSummary
  pub submitted : List Text
  pub released : List Text

-- The state that a step leaves, and its error.
abbrev pub Run : Type 0 → Type 0
Run W = Relay W × Option Failure

-- The next step, unless an error ends the run.
abbrev pub and_then : {W : Type 0} → Run W → (Relay W → Run W) → Run W
and_then (r, some f) next = (r, some f)
and_then (r, none) next = next r

abbrev pub attempts_of : Config → ℕ
attempts_of cfg = elim cfg.submission_retry_limit [
  | pos n ↦ if nat_beq n 0 then 1 else n
  | negsuc n ↦ 1
]

-- The loop of `submitWithRetry` and of `releaseWithRetry` around a call, from an attempt on, with
-- as many attempts left. It gives the attempts that are reported: the limit where the call fails.
module _ {W : Type 0} (call : W → W × Option Failure) (limit : ℕ) where
  unfoldable pub retry : ℕ → ℕ → Option Failure → W → W × ℕ × Option Failure
  retry zero attempt last w = (w, limit, last)
  retry (suc left) attempt last w =
      let (w', failure) = call w in
      elim failure [
        | none ↦ (w', attempt, none)
        | some f ↦
            if not (is_temporary f) || nat_beq attempt limit
            then (w', limit, some f)
            else retry left (attempt + 1) (some f) w'
      ]

-- A call that is made if its guard finds nothing.
abbrev pub guarded : {W : Type 0} → Option Failure → W → W × Option Failure → W × Option Failure
guarded (some f) w made = (w, some f)
guarded none w made = made

module _ {W : Type 0} (services : Services W) where
  -- `MarkProcessed` and `SaveCheckpoint` of the coordinator's store.
  abbrev pub mark : Relay W → Text → Run W
  mark r key =
      let (store, failure) = mark_processed r.store key (services.persist r.world) in
      (record r { store = store }, failure)

  abbrev pub save : Relay W → Text → ℕ → Run W
  save r key value =
      let (store, failure) = save_checkpoint r.store key value (services.persist r.world) in
      (record r { store = store }, failure)

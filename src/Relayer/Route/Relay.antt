-- ===== src/Relayer/Route/Relay.antt =====
-- One pass of the route relayer: `RunOnceWithSummary` of relayer/internal/route/relay.go. The
-- source, the sink and the target are functions of a world, which each call may change.
pub mod Ready
pub mod Deliveries
pub mod Accounts
use aegis_link.Common.{ℕ, ◌+◌, ◌||◌, Bool, Option, none, some, List, [], ◌∷◌, length, if◌then◌else◌}
use aegis_link.Common.Int.{ℤ}
use aegis_link.Text.{Text, lit, text_beq}
use aegis_link.Relayer.Services.{Failure, unexpected_status, Answer, answer, failed}
use aegis_link.Relayer.Daemon.{LoopConfig, Passing, Ended, run}
use aegis_link.Relayer.Route.Envelope.{Transfer}

-- An `AckStatus` is a text, which the target chooses.
abbrev pub ack_status_received : Text
ack_status_received = lit "received"

abbrev pub ack_status_completed : Text
ack_status_completed = lit "completed"

abbrev pub ack_status_failed : Text
ack_status_failed = lit "ack_failed"

abbrev pub ack_status_timed_out : Text
ack_status_timed_out = lit "timed_out"

pub record Ack : Type 0 where
  pub status : Text
  pub reason : Text

pub record AckRecord : Type 0 where
  pub transfer_id : Text
  pub status : Text
  pub reason : Text

pub record RunSummary : Type 0 where
  pub ready_acks : ℕ
  pub completed_acks : ℕ
  pub failed_acks : ℕ
  pub timed_out_acks : ℕ
  pub transfers_observed : ℕ
  pub transfers_delivered : ℕ
  pub received_deliveries : ℕ

abbrev pub empty_summary : RunSummary
empty_summary = record {
  ready_acks = 0;
  completed_acks = 0;
  failed_acks = 0;
  timed_out_acks = 0;
  transfers_observed = 0;
  transfers_delivered = 0;
  received_deliveries = 0;
}

-- The three fields of `Relayer`.
pub record Services (W : Type 0) : Type 0 where
  pub pending_transfers : W → W × Answer (List Transfer)
  pub complete_transfer : W → Text → W × Option Failure
  pub fail_transfer : W → Text → Text → W × Option Failure
  pub timeout_transfer : W → Text → W × Option Failure
  pub submit_transfer : W → Transfer → W × Answer Ack
  pub ready_acks : W → W × Answer (List AckRecord)
  pub confirm_ack : W → Text → W × Option Failure

-- What a pass leaves: the world, the summary and the error.
abbrev pub Passed : Type 0 → Type 0
Passed W = W × RunSummary × Option Failure

unfoldable pub record_ack : Text → RunSummary → RunSummary
record_ack status s =
    if text_beq status ack_status_completed
    then record s { completed_acks = s.completed_acks + 1 }
    else if text_beq status ack_status_failed
    then record s { failed_acks = s.failed_acks + 1 }
    else if text_beq status ack_status_timed_out
    then record s { timed_out_acks = s.timed_out_acks + 1 }
    else s

module _ {W : Type 0} (services : Services W) where
  unfoldable pub apply_ack : W → Text → Ack → W × Option Failure
  apply_ack w transfer_id ack =
      if text_beq ack.status ack_status_completed
      then services.complete_transfer w transfer_id
      else if text_beq ack.status ack_status_failed
      then services.fail_transfer w transfer_id ack.reason
      else if text_beq ack.status ack_status_timed_out
      then services.timeout_transfer w transfer_id
      else (w, some (unexpected_status ack.status))

  -- The loop over the acknowledgements that are ready.
  unfoldable pub apply_ready : List AckRecord → W → RunSummary → Passed W
  unfolding apply_ack record_ack
  apply_ready [] w s = (w, s, none)
  apply_ready (a ∷ acks) w s =
      let (applied, refusal) =
        apply_ack w a.transfer_id (record { status = a.status; reason = a.reason }) in
      elim refusal [
        | some f ↦ (applied, s, some f)
        | none ↦
            let (confirmed, failure) = services.confirm_ack applied a.transfer_id in
            elim failure [
              | some f ↦ (confirmed, record_ack a.status s, some f)
              | none ↦ apply_ready acks confirmed (record_ack a.status s)
            ]
      ]

  -- A delivery whose acknowledgement is there at once, or is still to come.
  unfoldable pub acknowledge : Transfer → Ack → W → RunSummary → Passed W
  unfolding apply_ack record_ack
  acknowledge t ack w s =
      if text_beq ack.status [] || text_beq ack.status ack_status_received
      then (w, record s { received_deliveries = s.received_deliveries + 1 }, none)
      else let (applied, refusal) = apply_ack w t.transfer_id ack in
        elim refusal [
          | some f ↦ (applied, s, some f)
          | none ↦ (applied, record_ack ack.status s, none)
        ]

  abbrev deliver_one : Transfer → W → RunSummary → Passed W
  deliver_one t w s =
      let (submitted, answered) = services.submit_transfer w t in
      elim answered [
        | failed f ↦ (submitted, s, some f)
        | answer ack ↦
            acknowledge t ack submitted
              (record s { transfers_delivered = s.transfers_delivered + 1 })
      ]

  -- What follows a step, unless an error ends the pass.
  abbrev pub and_then : Passed W → (W → RunSummary → Passed W) → Passed W
  and_then (w, s, some f) next = (w, s, some f)
  and_then (w, s, none) next = next w s

  -- The loop over the transfers.
  unfoldable pub deliver : List Transfer → W → RunSummary → Passed W
  unfolding acknowledge
  deliver [] w s = (w, s, none)
  deliver (t ∷ ts) w s = and_then (deliver_one t w s) (λ w' s'. deliver ts w' s')

  -- The second half of a pass.
  unfoldable pub deliver_pending : W → RunSummary → Passed W
  unfolding deliver
  deliver_pending w s =
      let (asked, answered) = services.pending_transfers w in
      elim answered [
        | failed f ↦ (asked, s, some f)
        | answer ts ↦ deliver ts asked (record s { transfers_observed = length ts })
      ]

  unfoldable pub run_once : W → Passed W
  unfolding apply_ready deliver_pending
  run_once w =
      let (asked, answered) = services.ready_acks w in
      elim answered [
        | failed f ↦ (asked, empty_summary, some f)
        | answer acks ↦
            and_then (apply_ready acks asked (record empty_summary { ready_acks = length acks }))
              deliver_pending
      ]

  -- `RunLoop`, for fuel.
  unfoldable pub run_loop :
      (is_cancelled : W → Bool) (wait : W → ℤ → W × Bool)
      → LoopConfig
      → ℕ
      → W
      → Option (Ended W RunSummary)
  unfolding run_once
  run_loop is_cancelled wait cfg fuel w =
      let passing : Passing W RunSummary = record {
        run_once = run_once;
        is_cancelled = is_cancelled;
        wait_for_next_run = wait;
      } in
      run passing cfg fuel w

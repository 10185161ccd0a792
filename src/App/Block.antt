-- ===== src/App/Block.antt =====
-- The queue of claims and the step of a block: `QueueDepositClaim` and `AdvanceBlock` of
-- chain/aegislink/app/app.go, and their types of chain/aegislink/app/node.go.
pub mod Queue
use aegis_link.Common.{ℕ, ◌+◌, Bool, Option, none, some, List, [], ◌∷◌, ◌++◌, length}
use aegis_link.Text.{Text}
use aegis_link.Errors.{Error, Outcome, Result, ok, err}
use aegis_link.Crypto.{Crypto}
use aegis_link.Codec.{int_decimal}
use aegis_link.Bank
use aegis_link.Bridge.Claim.{DepositClaim, deposit_validate_basic}
use aegis_link.Bridge.Attestation.{Attestation, validate_basic}
use aegis_link.Bridge.State.{ClaimResult, increment}
use aegis_link.App.{App, QueuedDepositClaim, normalize_address}
use aegis_link.App.Calls.{set_current_height}
use aegis_link.App.Settle.{Submitted, submit_deposit_claim}

pub record AppliedClaimBalance : Type 0 where
  pub address : Text
  pub denom : Text
  pub amount : Text

-- `LastSubmissionMessage`: the text of the errors, or the message id of a claim that was applied.
pub data Message : Type 0 where
  no_message : Message
  submission_failed : List Error → Message
  claim_applied : Text → Message

pub record BlockProgress : Type 0 where
  pub height : ℕ
  pub applied_queued_claims : ℕ
  pub pending_queued_claims : ℕ
  pub bridge_current_height : ℕ
  pub last_submission_message : Message
  pub applied_claim_balances : List AppliedClaimBalance

abbrev pub at_height : ℕ → BlockProgress
at_height height = record {
  height = height;
  applied_queued_claims = 0;
  pending_queued_claims = 0;
  bridge_current_height = height;
  last_submission_message = no_message;
  applied_claim_balances = [];
}

-- The end of the body of the loop over the queue.
unfoldable pub submission_ended : DepositClaim → Submitted → BlockProgress → App × BlockProgress
submission_ended claim (a, result, e ∷ errors) p =
    (a, record p { last_submission_message = submission_failed (e ∷ errors) })
submission_ended claim (a, result, []) p = (
  a,
  record p {
    applied_queued_claims = p.applied_queued_claims + 1;
    last_submission_message = claim_applied claim.identity.message_id;
    applied_claim_balances =
        p.applied_claim_balances
        ++ (let balance : AppliedClaimBalance = record {
          address = claim.recipient;
          denom = result.denom;
          amount = int_decimal (Bank.balance_of a.bank_keeper claim.recipient result.denom);
        } in
            balance)
          ∷ [];
  },
)

module _ (crypto : Crypto) (is_bech32 : Text → Bool) where
  unfoldable pub queue_deposit_claim : App → DepositClaim → Attestation → Outcome App
  unfolding normalize_address
  queue_deposit_claim a claim attestation = elim (deposit_validate_basic crypto claim) [
    | some e ↦ (a, some e)
    | none ↦ elim (validate_basic attestation) [
      | some e ↦ (a, some e)
      | none ↦ elim (normalize_address is_bech32 claim.recipient) [
        | err e ↦ (a, some e)
        | ok recipient ↦
            let queued : QueuedDepositClaim = record {
              claim = record claim { recipient = recipient };
              attestation = attestation;
              enqueued_at_height = a.bridge_keeper.current_height;
            } in
            (record a { pending_deposit_claims = a.pending_deposit_claims ++ queued ∷ [] }, none)
      ]
    ]
  ]

  -- The loop over the queue; the writing of the wallets says `flush_error` after a rollback.
  unfoldable pub submit_pending :
      Option Error → App → List QueuedDepositClaim → BlockProgress → App × BlockProgress
  unfolding submission_ended submit_deposit_claim
  submit_pending flush_error a [] p = (a, p)
  submit_pending flush_error a (q ∷ qs) p =
      let (a', p') =
        submission_ended q.claim
          (submit_deposit_claim flush_error crypto is_bech32 a q.claim q.attestation) p in
      submit_pending flush_error a' qs p'

  abbrev pub count_pending : App × BlockProgress → App × BlockProgress
  count_pending (a, p) = (a, record p { pending_queued_claims = length a.pending_deposit_claims })

  unfoldable pub advance_block : Option Error → App → App × BlockProgress
  unfolding submit_pending set_current_height
  advance_block flush_error a =
      let next_height = increment a.bridge_keeper.current_height in
      let next = set_current_height a next_height in
      elim a.pending_deposit_claims [
        | [] ↦ (next, at_height next_height)
        | q ∷ qs ↦ count_pending (
            submit_pending flush_error (record next { pending_deposit_claims = [] }) (q ∷ qs)
              (at_height next_height))
      ]

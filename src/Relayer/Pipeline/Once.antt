-- ===== src/Relayer/Pipeline/Once.antt =====
-- Nothing is done twice: what the passes of relayer/internal/pipeline submit and release.
use aegis_link.Common.{
  ◌≡◌, refl, ◌∙◌, inl, inr, false, Option, none, some, List, [], ◌∷◌, Bool-cases, Option-cases, ℕ,
}
use aegis_link.Text.{Text}
use aegis_link.Crypto.{Crypto}
use aegis_link.Bridge.Claim.{DepositClaim, deposit_validate_basic}
use aegis_link.Bridge.Attestation.{Attestation}
use aegis_link.Relayer.Services.{Failure, Answer, answer, failed}
use aegis_link.Relayer.Replay.{checkpoint, is_processed}
use aegis_link.Relayer.Evm.{DepositEvent, event_replay_key, event_claim}
use aegis_link.Relayer.Cosmos.{Withdrawal, withdrawal_replay_key, withdrawal_validate}
use aegis_link.Relayer.Pipeline.State.{
  Services, Config, Relay, Run, and_then, save, empty_summary, deposit_checkpoint_key,
  withdrawal_checkpoint_key,
}
use aegis_link.Relayer.Pipeline.Deposits.{
  submit_ended, collect_ended, run_deposit, run_events, run_deposits, deposits_observed,
  end_deposits,
}
use aegis_link.Relayer.Pipeline.Withdrawals.{
  release_ended, run_withdrawal, run_each_withdrawal, run_withdrawals, withdrawals_observed,
  end_withdrawals,
}
use aegis_link.Relayer.Pipeline.Pass.{run_once}
use aegis_link.Relayer.Replay.Memory.{
  IsRemembered, IsGrown, IsGrown-refl, mark_processed-IsGrown, save_checkpoint-IsGrown,
  mark_processed-is_processed, IsRemembered-IsGrown, IsRemembered-append,
}

pub record IsOnce {W : Type 0} (r : Relay W) : Type 0 where
  pub loaded : r.store.load_error ≡ none
  pub submissions : IsRemembered r.store r.submitted
  pub releases : IsRemembered r.store r.released

IsOnce-IsGrown :
    {W : Type 0} (r r' : Relay W)
    → IsGrown r.store r'.store
    → r'.submitted ≡ r.submitted
    → r'.released ≡ r.released
    → IsOnce r
    → IsOnce r'
IsOnce-IsGrown r r' g e₁ e₂ h = record {
  loaded = g.same_load ∙ h.loaded;
  submissions = rw e₁ (IsRemembered-IsGrown r.store r'.store r.submitted g h.submissions);
  releases = rw e₂ (IsRemembered-IsGrown r.store r'.store r.released g h.releases);
}

-- The next step is taken only from a state that a step without an error leaves.
pub and_then-keeps {κ} :
    {W : Type 0} (P : Relay W → Type κ) (run : Run W) (next : Relay W → Run W)
    → P run.0
    → ((r : Relay W) → P r → P (next r).0)
    → P (and_then run next).0
and_then-keeps P (r, some f) next h keep = h
and_then-keeps P (r, none) next h keep = keep r h

module _ (crypto : Crypto) {W : Type 0} (services : Services W) (cfg : Config) where
  save-IsOnce :
      (r : Relay W) (key : Text) (value : ℕ) → IsOnce r → IsOnce (save services r key value).0
  save-IsOnce r key value h =
      IsOnce-IsGrown r _ (save_checkpoint-IsGrown r.store key value (services.persist r.world)) refl
        refl h

  submit_ended-IsOnce :
      (r : Relay W) (key : Text) (ended : W × ℕ × Option Failure)
      → is_processed r.store key ≡ false
      → IsOnce r
      → IsOnce (submit_ended crypto services cfg r key ended).0
  submit_ended-IsOnce r key (w, attempts, some f) new h =
      IsOnce-IsGrown r _ (IsGrown-refl r.store) refl refl h
  submit_ended-IsOnce r key (w, attempts, none) new h =
      let grown = mark_processed-IsGrown r.store key (services.persist w) in
      record {
        loaded = grown.same_load ∙ h.loaded;
        submissions =
            IsRemembered-append r.store _ r.submitted key grown h.submissions new
              (mark_processed-is_processed r.store key (services.persist w) h.loaded);
        releases = IsRemembered-IsGrown r.store _ r.released grown h.releases;
      }

  collect_ended-IsOnce :
      (r : Relay W) (key : Text) (claim : DepositClaim) (collected : W × Answer Attestation)
      → is_processed r.store key ≡ false
      → IsOnce r
      → IsOnce (collect_ended crypto services cfg r key claim collected).0
  collect_ended-IsOnce r key claim (w, failed f) new h =
      IsOnce-IsGrown r _ (IsGrown-refl r.store) refl refl h
  collect_ended-IsOnce r key claim (w, answer a) new h =
      submit_ended-IsOnce (record r { world = w }) key _ new
        (IsOnce-IsGrown r _ (IsGrown-refl r.store) refl refl h)

  run_deposit-IsOnce :
      (r : Relay W) (event : DepositEvent)
      → IsOnce r
      → IsOnce (run_deposit crypto services cfg r event).0
  unfolding run_deposit
  run_deposit-IsOnce r event h =
      elim (Bool-cases (is_processed r.store (event_replay_key crypto event))) [
        | inl old ↦ rw (old, run_deposit) (IsOnce-IsGrown r _ (IsGrown-refl r.store) refl refl h)
        | inr new ↦
            rw (new, run_deposit)
              (elim (Option-cases
                (deposit_validate_basic crypto (event_claim crypto event cfg.cosmos_chain_id))) [
                  | inr (e, invalid) ↦ rw (invalid, run_deposit) h
                  | inl valid ↦ rw (valid, run_deposit) (collect_ended-IsOnce r _ _ _ new h)
                ])
      ]

  run_events-IsOnce :
      (r : Relay W) (events : List DepositEvent)
      → IsOnce r
      → IsOnce (run_events crypto services cfg r events).0
  unfolding run_events
  run_events-IsOnce r [] h = h
  run_events-IsOnce r (event ∷ events) h =
      and_then-keeps IsOnce (run_deposit crypto services cfg r event) _
        (run_deposit-IsOnce r event h) (λ r' h'. run_events-IsOnce r' events h')

  end_deposits-IsOnce :
      (cursor : ℕ) (r : Relay W) → IsOnce r → IsOnce (end_deposits crypto services cfg cursor r).0
  end_deposits-IsOnce cursor r h =
      and_then-keeps IsOnce (save services r _ cursor) _ (save-IsOnce r _ cursor h)
        (λ r' h'. IsOnce-IsGrown r' _ (IsGrown-refl r'.store) refl refl h')

  deposits_observed-IsOnce :
      (r : Relay W) (seen : W × Answer (List DepositEvent × ℕ))
      → IsOnce r
      → IsOnce (deposits_observed crypto services cfg r seen).0
  deposits_observed-IsOnce r (w, failed f) h = IsOnce-IsGrown r _ (IsGrown-refl r.store) refl refl h
  deposits_observed-IsOnce r (w, answer (events, cursor)) h =
      and_then-keeps IsOnce (run_events crypto services cfg _ events) _
        (run_events-IsOnce _ events (IsOnce-IsGrown r _ (IsGrown-refl r.store) refl refl h))
        (end_deposits-IsOnce cursor)

  run_deposits-IsOnce : (r : Relay W) → IsOnce r → IsOnce (run_deposits crypto services cfg r).0
  unfolding run_deposits
  run_deposits-IsOnce r h =
      deposits_observed-IsOnce
        (record r {
          summary = record r.summary {
            deposit_from_block = checkpoint r.store deposit_checkpoint_key;
          };
        })
        _ (IsOnce-IsGrown r _ (IsGrown-refl r.store) refl refl h)

  release_ended-IsOnce :
      (r : Relay W) (key : Text) (ended : W × ℕ × Option Failure)
      → is_processed r.store key ≡ false
      → IsOnce r
      → IsOnce (release_ended crypto services cfg r key ended).0
  release_ended-IsOnce r key (w, attempts, some f) new h =
      IsOnce-IsGrown r _ (IsGrown-refl r.store) refl refl h
  release_ended-IsOnce r key (w, attempts, none) new h =
      let grown = mark_processed-IsGrown r.store key (services.persist w) in
      record {
        loaded = grown.same_load ∙ h.loaded;
        submissions = IsRemembered-IsGrown r.store _ r.submitted grown h.submissions;
        releases =
            IsRemembered-append r.store _ r.released key grown h.releases new
              (mark_processed-is_processed r.store key (services.persist w) h.loaded);
      }

  run_withdrawal-IsOnce :
      (r : Relay W) (withdrawal : Withdrawal)
      → IsOnce r
      → IsOnce (run_withdrawal crypto services cfg r withdrawal).0
  unfolding run_withdrawal
  run_withdrawal-IsOnce r withdrawal h =
      elim (Bool-cases (is_processed r.store (withdrawal_replay_key crypto withdrawal))) [
        | inl old ↦ rw (old, run_withdrawal) (IsOnce-IsGrown r _ (IsGrown-refl r.store) refl refl h)
        | inr new ↦
            rw (new, run_withdrawal)
              (elim (Option-cases (withdrawal_validate crypto withdrawal)) [
                | inr (e, invalid) ↦ rw (invalid, run_withdrawal) h
                | inl valid ↦ rw (valid, run_withdrawal) (release_ended-IsOnce r _ _ new h)
              ])
      ]

  run_each_withdrawal-IsOnce :
      (r : Relay W) (ws : List Withdrawal)
      → IsOnce r
      → IsOnce (run_each_withdrawal crypto services cfg r ws).0
  unfolding run_each_withdrawal
  run_each_withdrawal-IsOnce r [] h = h
  run_each_withdrawal-IsOnce r (w ∷ ws) h =
      and_then-keeps IsOnce (run_withdrawal crypto services cfg r w) _ (run_withdrawal-IsOnce r w h)
        (λ r' h'. run_each_withdrawal-IsOnce r' ws h')

  end_withdrawals-IsOnce :
      (cursor : ℕ) (r : Relay W)
      → IsOnce r
      → IsOnce (end_withdrawals crypto services cfg cursor r).0
  end_withdrawals-IsOnce cursor r h =
      and_then-keeps IsOnce (save services r _ cursor) _ (save-IsOnce r _ cursor h)
        (λ r' h'. IsOnce-IsGrown r' _ (IsGrown-refl r'.store) refl refl h')

  withdrawals_observed-IsOnce :
      (r : Relay W) (seen : W × Answer (List Withdrawal × ℕ))
      → IsOnce r
      → IsOnce (withdrawals_observed crypto services cfg r seen).0
  withdrawals_observed-IsOnce r (w, failed f) h =
      IsOnce-IsGrown r _ (IsGrown-refl r.store) refl refl h
  withdrawals_observed-IsOnce r (w, answer (ws, cursor)) h =
      and_then-keeps IsOnce (run_each_withdrawal crypto services cfg _ ws) _
        (run_each_withdrawal-IsOnce _ ws (IsOnce-IsGrown r _ (IsGrown-refl r.store) refl refl h))
        (end_withdrawals-IsOnce cursor)

  run_withdrawals-IsOnce :
      (r : Relay W) → IsOnce r → IsOnce (run_withdrawals crypto services cfg r).0
  unfolding run_withdrawals
  run_withdrawals-IsOnce r h =
      withdrawals_observed-IsOnce
        (record r {
          summary = record r.summary {
            withdrawal_from_height = checkpoint r.store withdrawal_checkpoint_key;
          };
        })
        _ (IsOnce-IsGrown r _ (IsGrown-refl r.store) refl refl h)

  pub run_once-IsOnce : (r : Relay W) → IsOnce r → IsOnce (run_once crypto services cfg r).0
  unfolding run_once
  run_once-IsOnce r h =
      let cleared =
        IsOnce-IsGrown r (record r { summary = empty_summary }) (IsGrown-refl r.store) refl refl
          h in
      rw (h.loaded, run_once)
        (and_then-keeps IsOnce
          (run_deposits crypto services cfg (record r { summary = empty_summary }))
          (run_withdrawals crypto services cfg) (run_deposits-IsOnce _ cleared)
          run_withdrawals-IsOnce)

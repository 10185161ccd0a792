-- ===== src/Relayer/Pipeline/Released.antt =====
-- `runWithdrawals` of relayer/internal/pipeline leaves the cursor of the deposits and forgets
-- nothing.
use aegis_link.Common.{ℕ, inl, inr, Option, none, some, List, [], ◌∷◌, Bool-cases, Option-cases}
use aegis_link.Text.{Text, text_eq}
use aegis_link.Crypto.{Crypto}
use aegis_link.Relayer.Services.{Failure, Answer, answer, failed}
use aegis_link.Relayer.Replay.{checkpoint, is_processed}
use aegis_link.Relayer.Cosmos.{Withdrawal, withdrawal_replay_key, withdrawal_validate}
use aegis_link.Relayer.Pipeline.State.{Services, Config, Relay, save, withdrawal_checkpoint_key}
use aegis_link.Relayer.Pipeline.Once.{and_then-keeps}
use aegis_link.Relayer.Pipeline.Withdrawals.{
  release_ended, run_withdrawal, run_each_withdrawal, run_withdrawals, withdrawals_observed,
  end_withdrawals,
}
use aegis_link.Relayer.Pipeline.Cursor.{
  Extends, Extends-refl, Extends-trans, mark_processed-Extends, save_withdrawal-Extends,
}

module _ (crypto : Crypto) {W : Type 0} (services : Services W) (cfg : Config) where
  release_ended-Extends :
      (r : Relay W) (key : Text) (ended : W × ℕ × Option Failure)
      → Extends r.store (release_ended crypto services cfg r key ended).0.store
  release_ended-Extends r key (w, attempts, some f) = Extends-refl r.store
  release_ended-Extends r key (w, attempts, none) =
      mark_processed-Extends r.store key (services.persist w)

  run_withdrawal-Extends :
      (r : Relay W) (withdrawal : Withdrawal)
      → Extends r.store (run_withdrawal crypto services cfg r withdrawal).0.store
  unfolding run_withdrawal
  run_withdrawal-Extends r withdrawal =
      elim (Bool-cases (is_processed r.store (withdrawal_replay_key crypto withdrawal))) [
        | inl old ↦ rw (old, run_withdrawal) (Extends-refl r.store)
        | inr new ↦
            rw (new, run_withdrawal)
              (elim (Option-cases (withdrawal_validate crypto withdrawal)) [
                | inr (e, invalid) ↦ rw (invalid, run_withdrawal) (Extends-refl r.store)
                | inl valid ↦ rw (valid, run_withdrawal) (release_ended-Extends r _ _)
              ])
      ]

  run_each_withdrawal-Extends :
      (r : Relay W) (ws : List Withdrawal)
      → Extends r.store (run_each_withdrawal crypto services cfg r ws).0.store
  unfolding run_each_withdrawal
  run_each_withdrawal-Extends r [] = Extends-refl r.store
  run_each_withdrawal-Extends r (w ∷ ws) =
      and_then-keeps (λ (r' : Relay W). Extends r.store r'.store)
        (run_withdrawal crypto services cfg r w) _ (run_withdrawal-Extends r w)
        (λ r' h. Extends-trans r.store r'.store _ h (run_each_withdrawal-Extends r' ws))

  end_withdrawals-Extends :
      (cursor : ℕ) (r : Relay W)
      → Extends r.store (end_withdrawals crypto services cfg cursor r).0.store
  end_withdrawals-Extends cursor r =
      and_then-keeps (λ (r' : Relay W). Extends r.store r'.store)
        (save services r withdrawal_checkpoint_key cursor) _
        (save_withdrawal-Extends r.store cursor (services.persist r.world)) (λ r' h. h)

  withdrawals_observed-Extends :
      (r : Relay W) (seen : W × Answer (List Withdrawal × ℕ))
      → Extends r.store (withdrawals_observed crypto services cfg r seen).0.store
  withdrawals_observed-Extends r (w, failed f) = Extends-refl r.store
  withdrawals_observed-Extends r (w, answer (ws, cursor)) =
      and_then-keeps (λ (r' : Relay W). Extends r.store r'.store)
        (run_each_withdrawal crypto services cfg _ ws) _ (run_each_withdrawal-Extends _ ws)
        (λ r' h. Extends-trans r.store r'.store _ h (end_withdrawals-Extends cursor r'))

  pub run_withdrawals-Extends :
      (r : Relay W) → Extends r.store (run_withdrawals crypto services cfg r).0.store
  unfolding run_withdrawals
  run_withdrawals-Extends r =
      withdrawals_observed-Extends
        (record r {
          summary = record r.summary {
            withdrawal_from_height = checkpoint r.store withdrawal_checkpoint_key;
          };
        })
        _

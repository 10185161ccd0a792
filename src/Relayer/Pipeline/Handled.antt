-- ===== src/Relayer/Pipeline/Handled.antt =====
-- What `runDeposits` of relayer/internal/pipeline does with the events that it is given.
use mathlib.Core.Path.{subst}
use aegis_link.Common.{
  ℕ, ◌≡◌, refl, sym, ap, ◌∙◌, inl, inr, true, Option, none, some, List, [], ◌∷◌, All, Bool-cases,
  Option-cases,
}
use aegis_link.Text.{Text, text_eq}
use aegis_link.Crypto.{Crypto}
use aegis_link.Bridge.Claim.{DepositClaim, deposit_validate_basic}
use aegis_link.Bridge.Attestation.{Attestation}
use aegis_link.Relayer.Services.{Failure, Answer, answer, failed}
use aegis_link.Relayer.Replay.{Store, is_processed}
use aegis_link.Relayer.Evm.{DepositEvent, event_replay_key, event_claim}
use aegis_link.Relayer.Pipeline.State.{Services, Config, Relay, Run}
use aegis_link.Relayer.Pipeline.Once.{and_then-keeps}
use aegis_link.Relayer.Pipeline.Deposits.{submit_ended, collect_ended, run_deposit, run_events}
use aegis_link.Relayer.Pipeline.Cursor.{
  Extends, Extends-refl, Extends-trans, mark_processed-Extends, mark_processed-none, and_then-none,
}

-- What the processing of an event leaves: more is remembered, the cursor stays, and without an
-- error the event is remembered too.
record IsHandled {W : Type 0} (s : Store) (key : Text) (run : Run W) : Type 0 where
  extended : Extends s run.0.store
  done : run.1 ≡ none → is_processed run.0.store key ≡ true

IsHandled-failed :
    {W : Type 0} (r : Relay W) (s : Store) (key : Text) (f : Failure)
    → r.store ≡ s
    → IsHandled s key (r, some f)
IsHandled-failed r s key f same = record {
  extended = rw (← same) (Extends-refl r.store);
  done = λ (e : some f ≡ none). absurd (cc e);
}

module _ (crypto : Crypto) {W : Type 0} (services : Services W) (cfg : Config) where
  submit_ended-IsHandled :
      (r : Relay W) (key : Text) (ended : W × ℕ × Option Failure)
      → IsHandled r.store key (submit_ended crypto services cfg r key ended)
  submit_ended-IsHandled r key (w, attempts, some f) = IsHandled-failed _ r.store key f refl
  submit_ended-IsHandled r key (w, attempts, none) = record {
    extended = mark_processed-Extends r.store key (services.persist w);
    done = mark_processed-none r.store key (services.persist w);
  }

  collect_ended-IsHandled :
      (r : Relay W) (key : Text) (claim : DepositClaim) (collected : W × Answer Attestation)
      → IsHandled r.store key (collect_ended crypto services cfg r key claim collected)
  collect_ended-IsHandled r key claim (w, failed f) =
      IsHandled-failed (record r { world = w }) r.store key f refl
  collect_ended-IsHandled r key claim (w, answer a) =
      submit_ended-IsHandled (record r { world = w }) key _

  run_deposit-IsHandled :
      (r : Relay W) (event : DepositEvent)
      → IsHandled r.store (event_replay_key crypto event) (run_deposit crypto services cfg r event)
  unfolding run_deposit
  run_deposit-IsHandled r event =
      let key = event_replay_key crypto event in
      elim (Bool-cases (is_processed r.store key)) [
        | inl old ↦
            rw (old, run_deposit) (record { extended = Extends-refl r.store; done = λ _. old })
        | inr new ↦
            rw (new, run_deposit)
              (elim (Option-cases
                (deposit_validate_basic crypto (event_claim crypto event cfg.cosmos_chain_id))) [
                  | inr (e, invalid) ↦
                      rw (invalid, run_deposit) (IsHandled-failed r r.store key _ refl)
                  | inl valid ↦ rw (valid, run_deposit) (collect_ended-IsHandled r key _ _)
                ])
      ]

  -- All of a list of events, likewise.
  pub run_events-Extends :
      (r : Relay W) (events : List DepositEvent)
      → Extends r.store (run_events crypto services cfg r events).0.store
  unfolding run_events
  run_events-Extends r [] = Extends-refl r.store
  run_events-Extends r (event ∷ events) =
      let P = λ (r' : Relay W). Extends r.store r'.store in
      and_then-keeps P (run_deposit crypto services cfg r event) _
        (run_deposit-IsHandled r event).extended
        (λ r' h. Extends-trans r.store r'.store _ h (run_events-Extends r' events))

  abbrev pub AllProcessed : List DepositEvent → Store → Type 0
  AllProcessed events s = All (λ e. is_processed s (event_replay_key crypto e) ≡ true) events

  pub run_events-All :
      (r : Relay W) (events : List DepositEvent)
      → (run_events crypto services cfg r events).1 ≡ none
      → AllProcessed events (run_events crypto services cfg r events).0.store
  unfolding run_events
  run_events-All r [] done = tt
  run_events-All r (event ∷ events) done =
      let one = run_deposit crypto services cfg r event in
      let (first, same) = and_then-none one (λ r'. run_events crypto services cfg r' events) done in
      let rest = run_events-Extends one.0 events in
      subst (λ (run : Run W). AllProcessed (event ∷ events) run.0.store) (sym same)
        (
          rest.grown.grows _ ((run_deposit-IsHandled r event).done first),
          run_events-All one.0 events (ap (λ (x : Run W). x.1) (sym same) ∙ done),
        )

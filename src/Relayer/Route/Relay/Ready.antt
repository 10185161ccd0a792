-- ===== src/Relayer/Route/Relay/Ready.antt =====
-- What the first loop of a pass of relayer/internal/route/relay.go records in the summary.
use aegis_link.Common.{
  ℕ, ◌+◌, ◌≤◌, ◌≡◌, refl, inl, inr, Option-cases, none, List, [], ◌∷◌, length, arith,
}
use aegis_link.Text.{Text}
use aegis_link.Relayer.Route.Relay.{
  Ack, AckRecord, RunSummary, Services, Passed, record_ack, apply_ack, apply_ready,
}

-- The acknowledgements that a summary has recorded.
abbrev pub recorded : RunSummary → ℕ
recorded s = s.completed_acks + s.failed_acks + s.timed_out_acks

-- From a summary to a later one, with the recorded acknowledgements of between.
pub record IsLater (few many : ℕ) (s s' : RunSummary) : Type 0 where
  pub at_least : recorded s + few ≤ recorded s'
  pub at_most : recorded s' ≤ recorded s + many
  pub same_ready : s'.ready_acks ≡ s.ready_acks
  pub same_observed : s'.transfers_observed ≡ s.transfers_observed
  pub same_delivered : s'.transfers_delivered ≡ s.transfers_delivered
  pub same_received : s'.received_deliveries ≡ s.received_deliveries

pub IsLater-refl : (n : ℕ) (s : RunSummary) → IsLater 0 n s s
IsLater-refl n s = record {
  at_least = omega arith;
  at_most = omega arith;
  same_ready = refl;
  same_observed = refl;
  same_delivered = refl;
  same_received = refl;
}

IsLater-trans :
    (m n few many : ℕ) (s t u : RunSummary)
    → IsLater m n s t
    → IsLater few many t u
    → IsLater (m + few) (n + many) s u
IsLater-trans m n few many s t u a b = record {
  at_least = omega (arith, a.at_least, b.at_least);
  at_most = omega (arith, a.at_most, b.at_most);
  same_ready = omega (arith, a.same_ready, b.same_ready);
  same_observed = omega (arith, a.same_observed, b.same_observed);
  same_delivered = omega (arith, a.same_delivered, b.same_delivered);
  same_received = omega (arith, a.same_received, b.same_received);
}

IsLater-weaken :
    (few few' many many' : ℕ) (s t : RunSummary)
    → few' ≤ few
    → many ≤ many'
    → IsLater few many s t
    → IsLater few' many' s t
IsLater-weaken few few' many many' s t l h a = record {
  at_least = omega (arith, a.at_least);
  at_most = omega (arith, a.at_most);
  same_ready = a.same_ready;
  same_observed = a.same_observed;
  same_delivered = a.same_delivered;
  same_received = a.same_received;
}

module _ {W : Type 0} (services : Services W) where
  -- What the sink takes has one of the three statuses that are counted.
  pub apply_ack-IsLater :
      (w : W) (id : Text) (ack : Ack) (s : RunSummary)
      → (apply_ack services w id ack).1 ≡ none
      → IsLater 1 1 s (record_ack ack.status s)
  unfolding apply_ack record_ack
  apply_ack-IsLater w id ack s applied = record {
    at_least = ground arith;
    at_most = ground arith;
    same_ready = ground arith;
    same_observed = ground arith;
    same_delivered = ground arith;
    same_received = ground arith;
  }

  record_ack-IsLater : (status : Text) (s : RunSummary) → IsLater 0 1 s (record_ack status s)
  unfolding record_ack
  record_ack-IsLater status s = record {
    at_least = ground arith;
    at_most = ground arith;
    same_ready = ground arith;
    same_observed = ground arith;
    same_delivered = ground arith;
    same_received = ground arith;
  }

  -- What a loop over as many acknowledgements leaves.
  pub record IsApplied (n : ℕ) (s : RunSummary) (p : Passed W) : Type 0 where
    pub later : IsLater 0 n s p.1
    pub all : p.2 ≡ none → recorded s + n ≤ recorded p.1

  pub apply_ready-IsApplied :
      (acks : List AckRecord) (w : W) (s : RunSummary)
      → IsApplied (length acks) s (apply_ready services acks w s)
  unfolding apply_ready
  apply_ready-IsApplied [] w s = record { later = IsLater-refl 0 s; all = λ _. omega arith }
  apply_ready-IsApplied (a ∷ acks) w s =
      let ack : Ack = record { status = a.status; reason = a.reason } in
      elim (Option-cases (apply_ack services w a.transfer_id ack).1) [
        | inr (f, e) ↦
            rw (e, apply_ready) (record { later = IsLater-refl _ s; all = λ same. ground arith })
        | inl e ↦
            let applied = (apply_ack services w a.transfer_id ack).0 in
            let once = apply_ack-IsLater w a.transfer_id ack s e in
            rw (e, apply_ready)
              (elim (Option-cases (services.confirm_ack applied a.transfer_id).1) [
                | inr (f, e') ↦
                    rw (e', apply_ready)
                      (record {
                        later = IsLater-weaken _ 0 _ _ s _ (omega arith) (omega arith) once;
                        all = λ same. ground arith;
                      })
                | inl e' ↦
                    let rest =
                      apply_ready-IsApplied acks (services.confirm_ack applied a.transfer_id).0
                        (record_ack a.status s) in
                    rw (e', apply_ready)
                      (record {
                        later =
                            IsLater-weaken _ 0 _ _ s _ (omega arith) (omega arith)
                              (IsLater-trans 1 1 0 _ s _ _ once rest.later);
                        all = λ same. omega (arith, once.at_least, rest.all same);
                      })
              ])
      ]

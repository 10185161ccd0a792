-- ===== src/Relayer/Route/Relay/Accounts.antt =====
-- What the summary of a pass of relayer/internal/route/relay.go adds up to.
use aegis_link.Common.{
  ℕ, ◌+◌, ◌≤◌, ◌≡◌, refl, ◌⊎◌, inl, inr, Option-cases, none, some, length, arith,
}
use aegis_link.Relayer.Services.{Failure, Answer-cases}
use aegis_link.Relayer.Route.Relay.{
  RunSummary, empty_summary, Services, Passed, deliver_pending, and_then, run_once,
}
use aegis_link.Relayer.Route.Relay.Ready.{recorded, IsApplied, apply_ready-IsApplied}
use aegis_link.Relayer.Route.Relay.Deliveries.{deliver-IsDelivered}

module _ {W : Type 0} (services : Services W) where
  -- The sums of a summary.
  record IsBalanced (p : Passed W) : Type 0 where
    observed_before : p.1.transfers_delivered ≤ p.1.transfers_observed
    covered : recorded p.1 + p.1.received_deliveries ≤ p.1.ready_acks + p.1.transfers_delivered
    all_delivered : p.2 ≡ none → p.1.transfers_delivered ≡ p.1.transfers_observed
    all_counted :
        p.2 ≡ none
        → recorded p.1 + p.1.received_deliveries ≡ p.1.ready_acks + p.1.transfers_delivered

  deliver_pending-IsBalanced :
      (w : W) (s : RunSummary)
      → s.transfers_observed ≡ 0
      → s.transfers_delivered ≡ 0
      → s.received_deliveries ≡ 0
      → recorded s ≡ s.ready_acks
      → IsBalanced (deliver_pending services w s)
  unfolding deliver_pending
  deliver_pending-IsBalanced w s no_observed no_delivered no_received exact =
      elim (Answer-cases (services.pending_transfers w).1) [
        | inl (f, e) ↦
            rw (e, deliver_pending)
              (record {
                observed_before = omega arith;
                covered = omega arith;
                all_delivered = λ same. ground arith;
                all_counted = λ same. ground arith;
              })
        | inr (ts, e) ↦
            let d =
              deliver-IsDelivered services ts (services.pending_transfers w).0
                (record s { transfers_observed = length ts }) in
            rw (e, deliver_pending)
              (record {
                observed_before = omega (arith, d.within, d.same_observed);
                covered = omega (arith, d.covered, d.same_ready);
                all_delivered = λ same. omega (arith, (d.all same).0, d.same_observed);
                all_counted = λ same. omega (arith, (d.all same).1, d.covered, d.same_ready);
              })
      ]

  and_then-IsBalanced :
      (n : ℕ) (p : Passed W)
      → IsApplied services n (record empty_summary { ready_acks = n }) p
      → IsBalanced (and_then services p (deliver_pending services))
  and_then-IsBalanced n (w, s, some f) a =
      let later = a.later in
      record {
        observed_before = omega (arith, later.same_delivered);
        covered = omega (arith, later.same_received, later.same_ready, later.at_most);
        all_delivered = λ same. ground arith;
        all_counted = λ same. ground arith;
      }
  and_then-IsBalanced n (w, s, none) a =
      let later = a.later in
      deliver_pending-IsBalanced w s later.same_observed later.same_delivered later.same_received
        (omega (arith, a.all refl, later.at_most, later.same_ready))

  run_once-IsBalanced : (w : W) → IsBalanced (run_once services w)
  unfolding run_once
  run_once-IsBalanced w = elim (Answer-cases (services.ready_acks w).1) [
    | inl (f, e) ↦
        rw (e, run_once)
          (record {
            observed_before = omega arith;
            covered = omega arith;
            all_delivered = λ same. ground arith;
            all_counted = λ same. ground arith;
          })
    | inr (acks, e) ↦
        rw (e, run_once)
          (and_then-IsBalanced (length acks) _ (
            apply_ready-IsApplied services acks (services.ready_acks w).0
              (record empty_summary { ready_acks = length acks })))
  ]

-- The summary of a pass adds up, whatever the source, the sink and the target answer: not more is
-- delivered than was observed, and not more recorded or received than was ready or delivered.
-- Unless the pass reports an error, all that was observed is delivered, and each ready
-- acknowledgement and each delivery is recorded or received exactly once.
pub run_once-sums :
    {W : Type 0} (services : Services W) (w : W)
    → let (w', s, failure) = run_once services w in
      (s.transfers_delivered ≤ s.transfers_observed)
      × (recorded s + s.received_deliveries ≤ s.ready_acks + s.transfers_delivered)
      × (((f : Failure) × (failure ≡ some f))
          ⊎ ((s.transfers_delivered ≡ s.transfers_observed)
              × (recorded s + s.received_deliveries ≡ s.ready_acks + s.transfers_delivered)))
run_once-sums services w =
    let b = run_once-IsBalanced services w in
    (
      b.observed_before,
      b.covered,
      elim (Option-cases (run_once services w).2) [
        | inl same ↦ inr (b.all_delivered same, b.all_counted same)
        | inr failure ↦ inl failure
      ],
    )

-- ===== src/Relayer/Route/Relay/Deliveries.antt =====
-- What the second loop of a pass of relayer/internal/route/relay.go records in the summary.
use aegis_link.Common.{
  ℕ, ◌+◌, ◌≤◌, suc, ◌≡◌, refl, inl, inr, ◌||◌, Bool-cases, Option-cases, none, some, List, [], ◌∷◌,
  length, arith,
}
use aegis_link.Text.{text_beq}
use aegis_link.Relayer.Services.{Answer-cases}
use aegis_link.Relayer.Route.Envelope.{Transfer}
use aegis_link.Relayer.Route.Relay.{
  Ack, RunSummary, Services, Passed, apply_ack, acknowledge, deliver, deliver_one, and_then,
  ack_status_received,
}
use aegis_link.Relayer.Route.Relay.Ready.{recorded, apply_ack-IsLater}

module _ {W : Type 0} (services : Services W) where
  -- What a loop over as many transfers leaves: every delivery is recorded or received, unless an
  -- error ends the pass.
  pub record IsDelivered (n : ℕ) (s : RunSummary) (p : Passed W) : Type 0 where
    pub same_ready : p.1.ready_acks ≡ s.ready_acks
    pub same_observed : p.1.transfers_observed ≡ s.transfers_observed
    pub more : s.transfers_delivered ≤ p.1.transfers_delivered
    pub within : p.1.transfers_delivered ≤ s.transfers_delivered + n
    pub covered :
        recorded p.1 + p.1.received_deliveries + s.transfers_delivered
        ≤ recorded s + s.received_deliveries + p.1.transfers_delivered
    pub all :
        p.2 ≡ none
        → (p.1.transfers_delivered ≡ s.transfers_delivered + n)
          × (recorded s + s.received_deliveries + p.1.transfers_delivered
              ≤ recorded p.1 + p.1.received_deliveries + s.transfers_delivered)

  and_then-IsDelivered :
      (n : ℕ) (s : RunSummary) (p : Passed W) (next : W → RunSummary → Passed W)
      → IsDelivered 1 s p
      → ((w : W) (s' : RunSummary) → IsDelivered n s' (next w s'))
      → IsDelivered (suc n) s (and_then services p next)
  and_then-IsDelivered n s (w, s', some f) next a b = record {
    same_ready = a.same_ready;
    same_observed = a.same_observed;
    more = a.more;
    within = omega (arith, a.within);
    covered = a.covered;
    all = λ same. ground arith;
  }
  and_then-IsDelivered n s (w, s', none) next a b =
      let rest = b w s' in
      record {
        same_ready = omega (arith, a.same_ready, rest.same_ready);
        same_observed = omega (arith, a.same_observed, rest.same_observed);
        more = omega (arith, a.more, rest.more);
        within = omega (arith, a.within, rest.within);
        covered = omega (arith, a.covered, rest.covered);
        all = λ same. (
          omega (arith, (a.all refl).0, (rest.all same).0),
          omega (arith, (a.all refl).1, (rest.all same).1),
        );
      }

  -- An answer to a delivery that is counted before.
  acknowledge-IsDelivered :
      (t : Transfer) (ack : Ack) (w : W) (s : RunSummary)
      → IsDelivered 1 s (
          acknowledge services t ack w
            (record s { transfers_delivered = s.transfers_delivered + 1 }))
  unfolding acknowledge
  acknowledge-IsDelivered t ack w s =
      let s' : RunSummary = record s { transfers_delivered = s.transfers_delivered + 1 } in
      elim (Bool-cases (text_beq ack.status [] || text_beq ack.status ack_status_received)) [
        | inl e ↦ rw e (record {
          same_ready = refl;
          same_observed = refl;
          more = omega arith;
          within = omega arith;
          covered = omega arith;
          all = λ _. (omega arith, omega arith);
        })
        | inr e ↦
            rw (e, acknowledge)
              (elim (Option-cases (apply_ack services w t.transfer_id ack).1) [
                | inr (f, e') ↦
                    rw (e', acknowledge)
                      (record {
                        same_ready = refl;
                        same_observed = refl;
                        more = omega arith;
                        within = omega arith;
                        covered = omega arith;
                        all = λ same. ground arith;
                      })
                | inl e' ↦
                    let once = apply_ack-IsLater services w t.transfer_id ack s' e' in
                    rw (e', acknowledge)
                      (record {
                        same_ready = once.same_ready;
                        same_observed = once.same_observed;
                        more = omega (arith, once.same_delivered);
                        within = omega (arith, once.same_delivered);
                        covered =
                            omega (arith, once.same_delivered, once.same_received, once.at_most);
                        all = λ _. (
                          omega (arith, once.same_delivered),
                          omega (arith, once.same_delivered, once.same_received, once.at_least),
                        );
                      })
              ])
      ]

  deliver_one-IsDelivered :
      (t : Transfer) (w : W) (s : RunSummary) → IsDelivered 1 s (deliver_one services t w s)
  deliver_one-IsDelivered t w s = elim (Answer-cases (services.submit_transfer w t).1) [
    | inl (f, e) ↦
        rw (e, deliver_one)
          (record {
            same_ready = refl;
            same_observed = refl;
            more = omega arith;
            within = omega arith;
            covered = omega arith;
            all = λ same. ground arith;
          })
    | inr (ack, e) ↦
        rw (e, deliver_one) (acknowledge-IsDelivered t ack (services.submit_transfer w t).0 s)
  ]

  pub deliver-IsDelivered :
      (ts : List Transfer) (w : W) (s : RunSummary)
      → IsDelivered (length ts) s (deliver services ts w s)
  unfolding deliver
  deliver-IsDelivered [] w s = record {
    same_ready = refl;
    same_observed = refl;
    more = omega arith;
    within = omega arith;
    covered = omega arith;
    all = λ _. (omega arith, omega arith);
  }
  deliver-IsDelivered (t ∷ ts) w s =
      and_then-IsDelivered (length ts) s (deliver_one services t w s)
        (λ w' s'. deliver services ts w' s') (deliver_one-IsDelivered t w s)
        (λ w' s'. deliver-IsDelivered ts w' s')

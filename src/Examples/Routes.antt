-- ===== src/Examples/Routes.antt =====
-- A route relayer: two transfers that wait, and a target that has one acknowledgement ready.
use aegis_link.Common.{
  ℕ, ◌+◌, ◌≤◌, ◌≡◌, refl, ◌⊎◌, none, some, [], ◌∷◌, arith, nat_beq, if◌then◌else◌,
}
use aegis_link.Text.{lit, text_beq}
use aegis_link.Router.State.{transfer_id_of}
use aegis_link.Relayer.Services.{Failure, answer}
use aegis_link.Relayer.Route.Envelope.{Transfer, parse_transfer_sequence}
use aegis_link.Relayer.Route.Sequence.{parse_transfer_sequence-transfer_id_of}
use aegis_link.Relayer.Route.Relay.{
  Services, run_once, ack_status_received, ack_status_completed, ack_status_timed_out,
}
use aegis_link.Relayer.Route.Relay.Accounts.{run_once-sums}
use aegis_link.Relayer.Route.Relay.Ready.{recorded}

parse_transfer_sequence-transfer_id_of_example :
    parse_transfer_sequence (transfer_id_of (lit " eth ") 70) ≡ some 70
parse_transfer_sequence-transfer_id_of_example =
    parse_transfer_sequence-transfer_id_of (lit " eth ") 70 (omega arith)

abbrev transfer : ℕ → Transfer
transfer n = record {
  transfer_id = transfer_id_of (lit "eth") n;
  asset_id = lit "eth";
  amount = lit "60";
  receiver = lit "osmo1alice";
  destination_chain_id = lit "osmosis-1";
  channel_id = lit "channel-0";
  destination_denom = lit "ibc/ueth";
  timeout_height = n + 48;
  memo = [];
  status = lit "pending";
  failure_reason = [];
}

-- The world counts the calls; the target answers the first delivery at once.
abbrev services : Services ℕ
services = record {
  pending_transfers = λ w. (w + 1, answer (transfer 2 ∷ transfer 3 ∷ []));
  complete_transfer = λ w id. (w + 1, none);
  fail_transfer = λ w id reason. (w + 1, none);
  timeout_transfer = λ w id. (w + 1, none);
  submit_transfer = λ w t. (
    w + 1,
    answer (record {
      status = if nat_beq t.timeout_height 50 then ack_status_completed else ack_status_received;
      reason = [];
    }),
  );
  ready_acks = λ w. (
    w + 1,
    answer (
        (record {
          transfer_id = transfer_id_of (lit "eth") 1;
          status = ack_status_timed_out;
          reason = [];
        })
        ∷ []),
  );
  confirm_ack = λ w id. (w + 1, none);
}

run_once-sums_example :
    let (w', s, failure) = run_once services 0 in
    (s.transfers_delivered ≤ s.transfers_observed)
    × (recorded s + s.received_deliveries ≤ s.ready_acks + s.transfers_delivered)
    × (((f : Failure) × (failure ≡ some f))
        ⊎ ((s.transfers_delivered ≡ s.transfers_observed)
            × (recorded s + s.received_deliveries ≡ s.ready_acks + s.transfers_delivered)))
run_once-sums_example = run_once-sums services 0

-- One transfer has timed out, one is complete and one is on its way.
one_of_each : run_once services 0 ≡ (
  7,
  record {
    ready_acks = 1;
    completed_acks = 1;
    failed_acks = 0;
    timed_out_acks = 1;
    transfers_observed = 2;
    transfers_delivered = 2;
    received_deliveries = 1;
  },
  none,
)
unfolding run_once text_beq
one_of_each = refl

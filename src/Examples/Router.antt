-- ===== src/Examples/Router.antt =====
-- One transfer of the IBC router, from its start to its acknowledgement and beyond.
use aegis_link.Common.{ℕ, ◌≡◌, refl, inl, Option, none, some, true, false, [], arith}
use aegis_link.Common.Int.{pos}
use aegis_link.Common.Map.{lookup}
use aegis_link.Text.{Text, text_eq, lit, trim_space}
use aegis_link.Errors.{err, transfer_not_recoverable}
use aegis_link.Router.State.{Route, TransferRecord, Keeper, new_keeper, completed}
use aegis_link.Router.Transfers.{
  set_route, initiate_transfer, receive_ibc_ack, mark_refunded, mark_packet_relayed,
}
use aegis_link.Router.Lifecycle.{Numbered, IsFaithful}
use aegis_link.Router.Refunds.{
  Steps, done, step, send, acknowledge, refund, relay_packet, change_route, IsSettled, refund_once,
  reachable-Numbered, step-IsFaithful,
}

abbrev osmosis : Route
osmosis = record {
  asset_id = lit "eth";
  destination_chain_id = lit "osmo-1";
  channel_id = lit "channel-0";
  destination_denom = lit "ibc/eth";
  enabled = true;
}

abbrev routed : Keeper
routed = (set_route new_keeper osmosis).0

abbrev sent : Keeper
sent =
    (initiate_transfer routed (lit "eth") (some (pos 25)) (lit "osmo1x") 120 (lit "swap:uosmo")).0

abbrev transfer_id : Text
transfer_id = lit "ibc/eth/1"

abbrev settled : Keeper
settled = (receive_ibc_ack sent transfer_id true []).0

abbrev transfer : TransferRecord
transfer = record {
  transfer_id = transfer_id;
  asset_id = lit "eth";
  amount = pos 25;
  receiver = lit "osmo1x";
  destination_chain_id = lit "osmo-1";
  channel_id = lit "channel-0";
  destination_denom = lit "ibc/eth";
  timeout_height = 120;
  memo = lit "swap:uosmo";
  status = completed;
  failure_reason = [];
}

transfer_settled : lookup (trim_space transfer_id) settled.transfers ≡ some transfer
unfolding lookup receive_ibc_ack aegis_link.Router.Transfers.pending_transfer initiate_transfer
    set_route aegis_link.Router.State.route_validate_basic aegis_link.Text.text_beq trim_space
    aegis_link.Common.Map.insert new_keeper aegis_link.Router.State.canonical_route
    aegis_link.Router.State.transfer_id_of aegis_link.Codec.decimal
transfer_settled = refl

routed-Steps : Steps new_keeper settled
unfolding new_keeper set_route aegis_link.Router.State.route_validate_basic aegis_link.Text.text_beq
    trim_space
routed-Steps = step new_keeper routed settled (change_route new_keeper osmosis) (
    step routed sent settled
      (send routed (lit "eth") (some (pos 25)) (lit "osmo1x") 120 (lit "swap:uosmo") (omega arith))
      (step sent settled settled (acknowledge sent transfer_id true []) (done settled)))

settled-Numbered : Numbered settled
settled-Numbered = reachable-Numbered settled routed-Steps

-- After the acknowledgement: a refund is tried, and a packet marked.
abbrev refunding : Keeper
refunding = (mark_refunded settled transfer_id).0

abbrev marked : Keeper
marked = (mark_packet_relayed refunding transfer_id).0

refund_once_example :
    IsSettled marked (trim_space transfer_id) transfer
    × (mark_refunded marked transfer_id ≡ (marked, err transfer_not_recoverable))
refund_once_example =
    refund_once settled marked transfer_id transfer settled-Numbered transfer_settled (inl refl) (
      step settled refunding marked (refund settled transfer_id)
        (step refunding marked marked (relay_packet refunding transfer_id) (done marked)))

step-IsFaithful_example : IsFaithful settled refunding
step-IsFaithful_example =
    step-IsFaithful settled refunding (refund settled transfer_id) settled-Numbered

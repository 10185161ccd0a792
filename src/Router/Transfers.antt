-- ===== src/Router/Transfers.antt =====
-- The operations of the IBC router: x/ibcrouter/keeper/keeper.go, ibc_ack.go, ibc_timeout.go and
-- ibc_transfer.go. Writing the state to the store (`persist`) changes nothing in memory.
use aegis_link.Common.{
  ℕ, ◌+◌, ◌%◌, ◌^◌, Bool, true, false, not, Option, none, some, [], if◌then◌else◌, nat_beq,
}
use aegis_link.Common.Int.{ℤ}
use aegis_link.Common.Map.{lookup, insert}
use aegis_link.Text.{Text, text_eq, trim_space, is_blank}
use aegis_link.Errors.{
  Outcome, Result, ok, err, route_not_found, route_disabled, invalid_ibc_transfer,
  transfer_not_found, transfer_not_pending, transfer_not_recoverable, route_profile_not_found,
  route_profile_disabled, route_profile_asset_not_allowed, route_profile_policy_violation,
}
use aegis_link.Limits.{not_positive, clone_big_int}
use aegis_link.Router.Profile
use aegis_link.Router.Profile.{
  RouteProfile, canonical_profile, asset_route, allows_action, allows_memo,
}
use aegis_link.Router.State.{
  Route, TransferStatus, pending, completed, ack_failed, timed_out, refunded, other_status,
  TransferRecord, TransportStage, handshake_pending, handshake_open, packet_relayed, ack_completed,
  stage_ack_failed, stage_timed_out, TransportRecord, Keeper, route_validate_basic, canonical_route,
  transfer_id_of, transfer_sequence, clone_transfer_record,
}

unfoldable pub set_route : Keeper → Route → Outcome Keeper
set_route k route = elim (route_validate_basic route) [
  | some e ↦ (k, some e)
  | none ↦
      let stored = canonical_route route in
      (record k { routes = insert (trim_space stored.asset_id) stored k.routes }, none)
]

unfoldable pub set_route_profile : Keeper → RouteProfile → Outcome Keeper
set_route_profile k profile = elim (Profile.validate_basic profile) [
  | some e ↦ (k, some e)
  | none ↦
      let stored = canonical_profile profile in
      (
        record k { route_profiles = insert (trim_space stored.route_id) stored k.route_profiles },
        none,
      )
]

abbrev pub get_route : Keeper → Text → Option Route
get_route k asset_id = lookup (trim_space asset_id) k.routes

abbrev pub get_route_profile : Keeper → Text → Option RouteProfile
get_route_profile k route_id = lookup (trim_space route_id) k.route_profiles

-- The state that an operation leaves, and its record or error.
abbrev pub Ran : Type 0 → Type 0
Ran A = Keeper × Result A

-- The record of a new transfer.
abbrev pub new_transfer :
    Text → Option ℤ → Text → ℕ → Text → Text → Text → Text → ℕ → TransferRecord
new_transfer asset_id amount receiver timeout_height memo chain_id channel_id denom sequence =
    record {
      transfer_id = transfer_id_of asset_id sequence;
      asset_id = trim_space asset_id;
      amount = clone_big_int amount;
      receiver = trim_space receiver;
      destination_chain_id = trim_space chain_id;
      channel_id = trim_space channel_id;
      destination_denom = trim_space denom;
      timeout_height = timeout_height;
      memo = trim_space memo;
      status = pending;
      failure_reason = [];
    }

-- A session at the start of its handshake.
abbrev pub new_session : TransferRecord → ℕ → TransportRecord
new_session r sequence = record {
  transfer_id = r.transfer_id;
  asset_id = r.asset_id;
  destination_chain_id = r.destination_chain_id;
  channel_id = r.channel_id;
  packet_sequence = sequence;
  stage = handshake_pending;
  ack_reason = [];
}

-- `initiateTransfer`
unfoldable pub start_transfer :
    Keeper → Text → Option ℤ → Text → ℕ → Text → Text → Text → Text → Ran TransferRecord
start_transfer k asset_id amount receiver timeout_height memo chain_id channel_id denom =
    if not_positive amount
    then (k, err invalid_ibc_transfer)
    else if is_blank receiver
    then (k, err invalid_ibc_transfer)
    else if nat_beq timeout_height 0
    then (k, err invalid_ibc_transfer)
    else (let sequence = k.next_sequence in
        let r =
          new_transfer asset_id amount receiver timeout_height memo chain_id channel_id denom
            sequence in
        (
          record k {
            next_sequence = (sequence + 1) % 2 ^ 64;
            transfers = insert r.transfer_id r k.transfers;
            transport_sessions = insert r.transfer_id (new_session r sequence) k.transport_sessions;
          },
          ok (clone_transfer_record r),
        ))

unfoldable pub initiate_transfer : Keeper → Text → Option ℤ → Text → ℕ → Text → Ran TransferRecord
unfolding start_transfer
initiate_transfer k asset_id amount receiver timeout_height memo = elim (get_route k asset_id) [
  | none ↦ (k, err route_not_found)
  | some route ↦
      if not route.enabled
      then (k, err route_disabled)
      else start_transfer k asset_id amount receiver timeout_height memo route.destination_chain_id
          route.channel_id route.destination_denom
]

unfoldable pub initiate_transfer_with_profile :
    Keeper → Text → Text → Option ℤ → Text → ℕ → Text → Ran TransferRecord
unfolding start_transfer
initiate_transfer_with_profile k route_id asset_id amount receiver timeout_height memo =
    elim (get_route_profile k route_id) [
      | none ↦ (k, err route_profile_not_found)
      | some profile ↦
          if not profile.enabled
          then (k, err route_profile_disabled)
          else elim (asset_route profile asset_id) [
            | none ↦ (k, err route_profile_asset_not_allowed)
            | some asset ↦
                if not (allows_action profile.policy memo)
                then (k, err route_profile_policy_violation)
                else if not (allows_memo profile.policy memo)
                then (k, err route_profile_policy_violation)
                else start_transfer k asset_id amount receiver timeout_height memo
                    profile.destination_chain_id profile.channel_id asset.destination_denom
          ]
    ]

abbrev pub is_pending : TransferStatus → Bool
is_pending pending = true
is_pending completed = false
is_pending ack_failed = false
is_pending timed_out = false
is_pending refunded = false
is_pending (other_status s) = false

abbrev pub is_recoverable : TransferStatus → Bool
is_recoverable pending = false
is_recoverable completed = false
is_recoverable ack_failed = true
is_recoverable timed_out = true
is_recoverable refunded = false
is_recoverable (other_status s) = false

unfoldable pub pending_transfer : Keeper → Text → Result TransferRecord
pending_transfer k transfer_id = elim (lookup (trim_space transfer_id) k.transfers) [
  | none ↦ err transfer_not_found
  | some r ↦ if is_pending r.status then ok r else err transfer_not_pending
]

unfoldable pub ensure_transport_session : Keeper → TransferRecord → TransportRecord
ensure_transport_session k r = elim (lookup r.transfer_id k.transport_sessions) [
  | some transport ↦ transport
  | none ↦ new_session r (transfer_sequence r.transfer_id)
]

-- The end of the operations on a pending transfer: the record and its session are stored.
abbrev pub store_transfer : Keeper → TransferRecord → TransportStage → Text → Ran TransferRecord
store_transfer k r stage reason = (
  record k {
    transfers = insert r.transfer_id r k.transfers;
    transport_sessions =
        insert r.transfer_id
          (record (ensure_transport_session k r) { stage = stage; ack_reason = reason })
          k.transport_sessions;
  },
  ok (clone_transfer_record r),
)

unfoldable pub acknowledge_success : Keeper → Text → Ran TransferRecord
acknowledge_success k transfer_id = elim (pending_transfer k transfer_id) [
  | err e ↦ (k, err e)
  | ok r ↦ store_transfer k (record r { status = completed; failure_reason = [] }) ack_completed []
]

unfoldable pub acknowledge_failure : Keeper → Text → Text → Ran TransferRecord
acknowledge_failure k transfer_id reason = elim (pending_transfer k transfer_id) [
  | err e ↦ (k, err e)
  | ok r ↦
      store_transfer k (record r { status = ack_failed; failure_reason = trim_space reason })
        stage_ack_failed (trim_space reason)
]

unfoldable pub timeout_transfer : Keeper → Text → Ran TransferRecord
timeout_transfer k transfer_id = elim (pending_transfer k transfer_id) [
  | err e ↦ (k, err e)
  | ok r ↦
      store_transfer k (record r { status = timed_out }) stage_timed_out
        (trim_space r.failure_reason)
]

unfoldable pub mark_refunded : Keeper → Text → Ran TransferRecord
mark_refunded k transfer_id = elim (lookup (trim_space transfer_id) k.transfers) [
  | none ↦ (k, err transfer_not_found)
  | some r ↦
      let r' = record r { status = refunded } in
      if not (is_recoverable r.status) then (k, err transfer_not_recoverable) else (
        record k { transfers = insert r.transfer_id r' k.transfers },
        ok (clone_transfer_record r'),
      )
]

-- `OpenTransportSession` and `MarkPacketRelayed` differ in the stage.
unfoldable pub move_session : Keeper → Text → TransportStage → Ran TransportRecord
move_session k transfer_id stage = elim (lookup (trim_space transfer_id) k.transfers) [
  | none ↦ (k, err transfer_not_found)
  | some r ↦
      let transport = record (ensure_transport_session k r) { stage = stage; ack_reason = [] } in
      (
        record k { transport_sessions = insert r.transfer_id transport k.transport_sessions },
        ok transport,
      )
]

unfoldable pub open_transport_session : Keeper → Text → Ran TransportRecord
unfolding move_session
open_transport_session k transfer_id = move_session k transfer_id handshake_open

unfoldable pub mark_packet_relayed : Keeper → Text → Ran TransportRecord
unfolding move_session
mark_packet_relayed k transfer_id = move_session k transfer_id packet_relayed

unfoldable pub receive_ibc_ack : Keeper → Text → Bool → Text → Ran TransferRecord
unfolding acknowledge_success acknowledge_failure
receive_ibc_ack k transfer_id success reason =
    if success then acknowledge_success k transfer_id else acknowledge_failure k transfer_id reason

unfoldable pub handle_ibc_timeout : Keeper → Text → Ran TransferRecord
unfolding timeout_transfer
handle_ibc_timeout k transfer_id = timeout_transfer k transfer_id

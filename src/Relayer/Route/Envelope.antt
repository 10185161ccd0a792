-- ===== src/Relayer/Route/Envelope.antt =====
-- The packet of a transfer: `buildDeliveryEnvelope` of relayer/internal/route/relay.go.
use aegis_link.Common.{ℕ, ◌^◌, ◌++◌, [], Option, none, some, if◌then◌else◌, ltb}
use aegis_link.Text.{Text, lit, trim_space, text_beq}
use aegis_link.Codec.{parse_unsigned}
use aegis_link.Router.State.{last_part}
use aegis_link.Relayer.Route.Action.{Parsed, parse_route_action}

-- The status is a text that the chain sends.
pub record Transfer : Type 0 where
  pub transfer_id : Text
  pub asset_id : Text
  pub amount : Text
  pub receiver : Text
  pub destination_chain_id : Text
  pub channel_id : Text
  pub destination_denom : Text
  pub timeout_height : ℕ
  pub memo : Text
  pub status : Text
  pub failure_reason : Text

pub record PacketData : Type 0 where
  pub denom : Text
  pub amount : Text
  pub sender : Text
  pub receiver : Text
  pub memo : Text

pub record Packet : Type 0 where
  pub sequence : ℕ
  pub source_port : Text
  pub source_channel : Text
  pub destination_port : Text
  pub timeout_height : ℕ
  pub packet_data : PacketData

pub record DenomTrace : Type 0 where
  pub path : Text
  pub base_denom : Text
  pub ibc_denom : Text

-- `parsed` holds the Action and the ActionError.
pub record DeliveryEnvelope : Type 0 where
  pub transfer : Transfer
  pub packet : Packet
  pub denom_trace : DenomTrace
  pub parsed : Parsed

abbrev uint64_of : Option ℕ → Option ℕ
uint64_of none = none
uint64_of (some n) = if ltb n (2 ^ 64) then some n else none

-- `parseTransferSequence`: what `strconv.ParseUint` reads of the part after the last slash.
unfoldable pub parse_transfer_sequence : Text → Option ℕ
parse_transfer_sequence transfer_id =
    uint64_of (parse_unsigned (last_part (trim_space transfer_id)))

unfoldable pub envelope_of : Transfer → ℕ → DeliveryEnvelope
envelope_of t sequence = record {
  transfer = t;
  packet = record {
    sequence = sequence;
    source_port = lit "transfer";
    source_channel = trim_space t.channel_id;
    destination_port = lit "transfer";
    timeout_height = t.timeout_height;
    packet_data = record {
      denom = trim_space t.asset_id;
      amount = trim_space t.amount;
      sender = lit "aegislink1ibcrouter";
      receiver = trim_space t.receiver;
      memo = trim_space t.memo;
    };
  };
  denom_trace = record {
    path = lit "transfer/" ++ trim_space t.channel_id;
    base_denom = trim_space t.asset_id;
    ibc_denom = trim_space t.destination_denom;
  };
  parsed = parse_route_action t.memo;
}

-- `none` is an error: no sequence number, no channel, no asset or no receiver.
unfoldable pub build_delivery_envelope : Transfer → Option DeliveryEnvelope
unfolding envelope_of parse_transfer_sequence
build_delivery_envelope t = elim (parse_transfer_sequence t.transfer_id) [
  | none ↦ none
  | some sequence ↦
      if text_beq (trim_space t.channel_id) []
      then none
      else if text_beq (trim_space t.asset_id) []
      then none
      else if text_beq (trim_space t.receiver) []
      then none
      else some (envelope_of t sequence)
]

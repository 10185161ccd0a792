-- ===== src/Router/State.antt =====
-- The state of the IBC router, x/ibcrouter/keeper/keeper.go. A status that is read from a snapshot
-- can be any text; `other_status` and `other_stage` hold those.
use aegis_link.Common.{ℕ, ◌^◌, Bool, Option, none, some, [], ◌∷◌, ◌++◌, if◌then◌else◌, ltb}
use aegis_link.Common.Int.{ℤ}
use aegis_link.Common.Map.{Map}
use aegis_link.Text.{Text, lit, trim_space, is_blank, cut_after}
use aegis_link.Errors.{Error, invalid_route}
use aegis_link.Codec.{decimal, parse_unsigned}
use aegis_link.Router.Profile.{RouteProfile}

pub record Route : Type 0 where
  pub asset_id : Text
  pub destination_chain_id : Text
  pub channel_id : Text
  pub destination_denom : Text
  pub enabled : Bool

pub data TransferStatus : Type 0 where
  pending completed ack_failed timed_out refunded : TransferStatus
  other_status : Text → TransferStatus

pub record TransferRecord : Type 0 where
  pub transfer_id : Text
  pub asset_id : Text
  pub amount : ℤ
  pub receiver : Text
  pub destination_chain_id : Text
  pub channel_id : Text
  pub destination_denom : Text
  pub timeout_height : ℕ
  pub memo : Text
  pub status : TransferStatus
  pub failure_reason : Text

pub data TransportStage : Type 0 where
  handshake_pending handshake_open packet_relayed : TransportStage
  ack_completed stage_ack_failed stage_timed_out : TransportStage
  other_stage : Text → TransportStage

pub record TransportRecord : Type 0 where
  pub transfer_id : Text
  pub asset_id : Text
  pub destination_chain_id : Text
  pub channel_id : Text
  pub packet_sequence : ℕ
  pub stage : TransportStage
  pub ack_reason : Text

pub record Keeper : Type 0 where
  pub routes : Map Text Route
  pub route_profiles : Map Text RouteProfile
  pub transfers : Map Text TransferRecord
  pub transport_sessions : Map Text TransportRecord
  pub next_sequence : ℕ

-- `NewKeeper`
unfoldable pub new_keeper : Keeper
new_keeper = record {
  routes = [];
  route_profiles = [];
  transfers = [];
  transport_sessions = [];
  next_sequence = 1;
}

abbrev err_if : Bool → Option Error → Option Error
err_if c rest = if c then some invalid_route else rest

-- `Route.ValidateBasic`
unfoldable pub route_validate_basic : Route → Option Error
route_validate_basic r = err_if (is_blank r.asset_id) (
    err_if (is_blank r.destination_chain_id)
      (err_if (is_blank r.channel_id) (err_if (is_blank r.destination_denom) none)))

unfoldable pub canonical_route : Route → Route
canonical_route r = record r {
  asset_id = trim_space r.asset_id;
  destination_chain_id = trim_space r.destination_chain_id;
  channel_id = trim_space r.channel_id;
  destination_denom = trim_space r.destination_denom;
}

-- `fmt.Sprintf("ibc/%s/%d", strings.TrimSpace(assetID), sequence)`
unfoldable pub transfer_id_of : Text → ℕ → Text
transfer_id_of asset_id sequence = lit "ibc/" ++ (trim_space asset_id ++ 0x2f ∷ decimal sequence)

-- The last of the parts that `strings.Split(s, "/")` gives.
unfoldable pub last_part : Text → Text
last_part [] = []
last_part (b ∷ s) =
    let rest = last_part s in
    let whole = b ∷ s in elim (cut_after 0x2f (b ∷ s)) [ none ↦ whole | some later ↦ rest ]

abbrev uint64_or_zero : Option ℕ → ℕ
uint64_or_zero none = 0
uint64_or_zero (some n) = if ltb n (2 ^ 64) then n else 0

-- `transferSequence`: what `strconv.ParseUint` reads of the last part, 0 if it fails.
unfoldable pub transfer_sequence : Text → ℕ
unfolding last_part
transfer_sequence transfer_id = uint64_or_zero (parse_unsigned (last_part (trim_space transfer_id)))

-- `cloneTransferRecord`
unfoldable pub clone_transfer_record : TransferRecord → TransferRecord
clone_transfer_record r = record r {
  transfer_id = trim_space r.transfer_id;
  asset_id = trim_space r.asset_id;
  receiver = trim_space r.receiver;
  destination_chain_id = trim_space r.destination_chain_id;
  channel_id = trim_space r.channel_id;
  destination_denom = trim_space r.destination_denom;
  memo = trim_space r.memo;
  failure_reason = trim_space r.failure_reason;
}

-- ===== src/Bridge/Snapshot.antt =====
-- Snapshots of the bridge keeper: `ExportState` and `ImportState` of x/bridge/keeper/state.go.
pub mod Roundtrip
use aegis_link.Common.{
  nat_eq, ℕ, Bool, true, false, Option, none, some, List, [], ◌∷◌, ◌++◌, map, is_empty,
  if◌then◌else◌, nat_beq,
}
use aegis_link.Common.Int.{ℤ}
use aegis_link.Common.Map.{Map, insert}
use aegis_link.Text.{Text, text_eq}
use aegis_link.Errors.{Error, Outcome, invalid_snapshot}
use aegis_link.Codec.{int_decimal, set_string}
use aegis_link.Bridge.Claim.{ClaimIdentity}
use aegis_link.Bridge.SignerSet.{SignerSet, normalize_signer_set}
use aegis_link.Bridge.State.{Keeper, ClaimRecord, WithdrawalRecord}

pub record ClaimRecordSnapshot : Type 0 where
  pub claim_key : Text
  pub message_id : Text
  pub source_tx_hash : Text
  pub denom : Text
  pub asset_id : Text
  pub recipient : Text
  pub amount : Text
  pub status : Text

pub record WithdrawalRecordSnapshot : Type 0 where
  pub block_height : ℕ
  pub identity : ClaimIdentity
  pub asset_id : Text
  pub asset_address : Text
  pub amount : Text
  pub recipient : Text
  pub deadline : ℕ
  pub signature : List ℕ

-- The snapshot of a signer set has the set's fields.
pub record StateSnapshot : Type 0 where
  pub current_height : ℕ
  pub next_withdrawal_nonce : ℕ
  pub rejected_claims : ℕ
  pub circuit_breaker_tripped : Bool
  pub last_invariant_error : Option Error
  pub signer_sets : List SignerSet
  pub processed_claims : List ClaimRecordSnapshot
  pub supply_by_denom : Map Text Text
  pub withdrawals : List WithdrawalRecordSnapshot

abbrev pub claim_snapshot : Text × ClaimRecord → ClaimRecordSnapshot
claim_snapshot (key, c) = record {
  claim_key = key;
  message_id = c.message_id;
  source_tx_hash = c.source_tx_hash;
  denom = c.denom;
  asset_id = c.asset_id;
  recipient = c.recipient;
  amount = int_decimal c.amount;
  status = c.status;
}

abbrev pub withdrawal_snapshot : WithdrawalRecord → WithdrawalRecordSnapshot
withdrawal_snapshot w = record {
  block_height = w.block_height;
  identity = w.identity;
  asset_id = w.asset_id;
  asset_address = w.asset_address;
  amount = int_decimal w.amount;
  recipient = w.recipient;
  deadline = w.deadline;
  signature = w.signature;
}

abbrev pub supply_snapshot : Text × ℤ → Text × Text
supply_snapshot (denom, amount) = (denom, int_decimal amount)

abbrev pub set_snapshot : ℕ × SignerSet → SignerSet
set_snapshot (version, set) = set

unfoldable pub export_state : Keeper → StateSnapshot
export_state k = record {
  current_height = k.current_height;
  next_withdrawal_nonce = k.next_withdrawal_nonce;
  rejected_claims = k.rejected_claims;
  circuit_breaker_tripped = k.circuit_breaker_tripped;
  last_invariant_error = k.last_invariant_error;
  signer_sets = map set_snapshot k.signer_sets;
  processed_claims = map claim_snapshot k.processed_claims;
  supply_by_denom = map supply_snapshot k.supply_by_denom;
  withdrawals = map withdrawal_snapshot k.withdrawals;
}

-- The loops of `ImportState`: what they have read, and whether they have come to the end.
unfoldable pub import_sets : Map ℕ SignerSet → List SignerSet → Map ℕ SignerSet
import_sets m [] = m
import_sets m (s ∷ ss) =
    import_sets (insert (normalize_signer_set s).version (normalize_signer_set s) m) ss

abbrev pub claim_of : ClaimRecordSnapshot → ℤ → ClaimRecord
claim_of c amount = record {
  message_id = c.message_id;
  source_tx_hash = c.source_tx_hash;
  denom = c.denom;
  asset_id = c.asset_id;
  recipient = c.recipient;
  amount = amount;
  status = c.status;
}

unfoldable pub import_claims :
    Map Text ClaimRecord → List ClaimRecordSnapshot → Map Text ClaimRecord × Bool
import_claims m [] = (m, true)
import_claims m (c ∷ cs) = elim (set_string c.amount) [
  | none ↦ (m, false)
  | some amount ↦ import_claims (insert c.claim_key (claim_of c amount) m) cs
]

unfoldable pub import_supply : Map Text ℤ → Map Text Text → Map Text ℤ × Bool
import_supply m [] = (m, true)
import_supply m ((denom, amount) ∷ entries) = elim (set_string amount) [
  | none ↦ (m, false)
  | some parsed ↦ import_supply (insert denom parsed m) entries
]

abbrev pub withdrawal_of_snapshot : WithdrawalRecordSnapshot → ℤ → WithdrawalRecord
withdrawal_of_snapshot w amount = record {
  block_height = w.block_height;
  identity = w.identity;
  asset_id = w.asset_id;
  asset_address = w.asset_address;
  amount = amount;
  recipient = w.recipient;
  deadline = w.deadline;
  signature = w.signature;
}

unfoldable pub import_withdrawals :
    List WithdrawalRecord → List WithdrawalRecordSnapshot → List WithdrawalRecord × Bool
import_withdrawals done [] = (done, true)
import_withdrawals done (w ∷ ws) = elim (set_string w.amount) [
  | none ↦ (done, false)
  | some amount ↦ import_withdrawals (done ++ withdrawal_of_snapshot w amount ∷ []) ws
]

-- The fields that are read before the loops.
abbrev pub import_scalars : Keeper → StateSnapshot → Keeper
import_scalars k s = record k {
  current_height = s.current_height;
  next_withdrawal_nonce = if nat_beq s.next_withdrawal_nonce 0 then 1 else s.next_withdrawal_nonce;
  rejected_claims = s.rejected_claims;
  circuit_breaker_tripped = s.circuit_breaker_tripped;
  last_invariant_error = s.last_invariant_error;
  signer_sets = if is_empty s.signer_sets then k.signer_sets else import_sets [] s.signer_sets;
}

end_withdrawals : Keeper → List WithdrawalRecord × Bool → Outcome Keeper
end_withdrawals k (ws, true) = (record k { withdrawals = ws }, none)
end_withdrawals k (ws, false) = (record k { withdrawals = ws }, some invalid_snapshot)

end_supply : Keeper → StateSnapshot → Map Text ℤ × Bool → Outcome Keeper
unfolding end_withdrawals import_withdrawals
end_supply k s (m, false) = (record k { supply_by_denom = m }, some invalid_snapshot)
end_supply k s (m, true) =
    end_withdrawals (record k { supply_by_denom = m }) (import_withdrawals [] s.withdrawals)

end_claims : Keeper → StateSnapshot → Map Text ClaimRecord × Bool → Outcome Keeper
unfolding end_supply import_supply
end_claims k s (m, false) = (record k { processed_claims = m }, some invalid_snapshot)
end_claims k s (m, true) =
    end_supply (record k { processed_claims = m }) s (import_supply [] s.supply_by_denom)

-- `ImportState`, which leaves what it has read where it fails.
unfoldable pub import_state : Keeper → StateSnapshot → Outcome Keeper
unfolding end_claims import_claims import_sets
import_state k s = end_claims (import_scalars k s) s (import_claims [] s.processed_claims)

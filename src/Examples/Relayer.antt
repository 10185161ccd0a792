-- ===== src/Examples/Relayer.antt =====
-- A relayer of the small chain: one deposit, in block 3, and services that answer.
use aegis_link.Common.{
  ℕ, ◌+◌, ◌≤◌, ◌≡◌, refl, sym, ap, ◌∙◌, ◌⊎◌, inl, inr, true, false, Bool, Option, none, some, List,
  [], ◌∷◌, length, if◌then◌else◌, leb,
}
use aegis_link.Common.Int.{pos}
use aegis_link.Common.Map.{lookup}
use aegis_link.Text.{Text, lit, text_beq}
use aegis_link.Bridge.Attestation.{is_seen}
use aegis_link.Bridge.Claim.{replay_key}
use aegis_link.Relayer.Services.{Failure, service_failed, is_temporary, answer}
use aegis_link.Relayer.Replay.{checkpoint, new_store}
use aegis_link.Relayer.Watcher.{Source, Watcher}
use aegis_link.Relayer.Evm.{DepositEvent, event_claim, event_less, event_replay_key}
use aegis_link.Relayer.Evm.Keys.{event_claim-replay_key}
use aegis_link.Relayer.Cosmos.{Withdrawal, withdrawal_less}
use aegis_link.Relayer.Pipeline.State.{Services, Config, Relay, empty_summary}
use aegis_link.Relayer.Pipeline.Pass.{run_once}
use aegis_link.Relayer.Pipeline.Passes.{Passes}
use aegis_link.Relayer.Daemon.{LoopConfig, Passing, Ended, run}
use aegis_link.Relayer.Daemon.Ends.{run-IsEnd}
use aegis_link.Examples.Data.{plain_crypto, attestation}

abbrev deposit : DepositEvent
deposit = record {
  block_number = 3;
  source_chain_id = lit "11155111";
  source_contract = [];
  tx_hash = lit "0xabc";
  log_index = 3;
  nonce = 7;
  deposit_id = [];
  message_id = [];
  source_asset_kind = lit "native_eth";
  asset_address = [];
  asset_id = lit "eth";
  amount = some (pos 60);
  recipient = lit "cosmos1alice";
  expiry = 50;
}

stated : text_beq (lit "native_eth") [] ≡ false
unfolding text_beq
stated = refl

event_claim-replay_key_example :
    replay_key plain_crypto (event_claim plain_crypto deposit (lit "aegislink-1")).identity
    ≡ event_replay_key plain_crypto deposit
event_claim-replay_key_example =
    event_claim-replay_key plain_crypto deposit (lit "aegislink-1") (inl stated)

-- The world is the last block of Ethereum. The first call to the chain at a block fails, and is
-- tried again.
abbrev deposits : Source ℕ DepositEvent
deposits = record {
  connected = true;
  latest = λ w. (w, answer w);
  between = λ w from to. (w, answer (deposit ∷ []));
}

abbrev no_withdrawals : Source ℕ Withdrawal
no_withdrawals = record {
  connected = true;
  latest = λ w. (w, answer 0);
  between = λ w from to. (w, answer []);
}

abbrev services : Services ℕ
services = record {
  is_cancelled = λ w. false;
  deposit_watcher = record { source = deposits; confirmations = 2; less = event_less };
  withdrawal_watcher = record {
    source = no_withdrawals;
    confirmations = 1;
    less = withdrawal_less;
  };
  collect = λ w id hash. (w, answer (record attestation { message_id = id; payload_hash = hash }));
  sink = λ w claim a. (w + 1, if leb w 10 then some (service_failed true) else none);
  target = λ w request. (w, none);
  persist = λ w store. none;
}

abbrev config : Config
config = record { cosmos_chain_id = lit "aegislink-1"; submission_retry_limit = pos 3 }

abbrev relay : Relay ℕ
relay = record {
  store = new_store;
  world = 0;
  summary = empty_summary;
  submitted = [];
  released = [];
}

abbrev twice : Relay ℕ
twice =
    (run_once plain_crypto services config
      (record (run_once plain_crypto services config (record relay { world = 10 })).0 {
        world = 12;
      })).0

-- Passes that fail for the first three times, with an error that is temporary.
abbrev passing : Passing ℕ ℕ
passing = record {
  run_once = λ s. (s + 1, s, if leb s 2 then some (service_failed true) else none);
  is_cancelled = λ s. false;
  wait_for_next_run = λ s delay. (s, false);
}

abbrev four_runs : LoopConfig
four_runs = record { poll_interval = pos 0; failure_backoff = pos 7; max_consecutive_runs = pos 4 }

run-IsEnd_example :
    (ended : Ended ℕ ℕ) × (run passing four_runs 4 0 ≡ some ended)
    × (length ended.1 ≤ 4)
    × ((ended.2 ≡ none) ⊎ ((f : Failure) × (ended.2 ≡ some f) × (is_temporary f ≡ false)))
run-IsEnd_example = run-IsEnd passing four_runs 3 0 refl

-- The first pass submits the deposit at its second attempt, and the second pass passes it over.
done_once :
    (length twice.submitted ≡ 1)
    × (twice.summary.duplicate_deposits ≡ 1)
    × (checkpoint twice.store (lit "evm-deposits") ≡ 11)
unfolding run_once new_store aegis_link.Relayer.Watcher.observe checkpoint lookup
    aegis_link.Common.slice_stable aegis_link.Relayer.Replay.is_processed is_seen
    aegis_link.Bridge.Claim.deposit_validate_basic text_beq event_claim
    aegis_link.Bridge.Claim.identity_validate_basic aegis_link.Text.trim_space replay_key
    aegis_link.Codec.hex_encode aegis_link.Bridge.Claim.canonical_identity_bytes
    aegis_link.Bridge.Claim.write_canonical_string aegis_link.Bridge.Attestation.validate_basic
    aegis_link.Bridge.Claim.canonical_claim_bytes
    aegis_link.Bridge.Claim.canonical_replay_source_asset_kind aegis_link.Bridge.Claim.claim_digest
    aegis_link.Bridge.Claim.write_canonical_big_int aegis_link.Codec.int_decimal
    aegis_link.Codec.put_uint64 aegis_link.Codec.put_uvarint aegis_link.Common.Map.insert
    aegis_link.Relayer.Cosmos.submit_guard aegis_link.Relayer.Evm.claim_asset_kind event_replay_key
    aegis_link.Relayer.Pipeline.Deposits.run_deposits
    aegis_link.Relayer.Pipeline.Deposits.submit_with_retry
    aegis_link.Relayer.Pipeline.Withdrawals.run_withdrawals aegis_link.Relayer.Replay.mark_processed
    aegis_link.Relayer.Replay.save_checkpoint
    aegis_link.Bridge.Attestation.signer_address_from_public_key
done_once = (refl, refl, refl)

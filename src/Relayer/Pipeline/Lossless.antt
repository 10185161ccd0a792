-- ===== src/Relayer/Pipeline/Lossless.antt =====
-- No deposit is passed over by relayer/internal/pipeline: the checkpoint moves past what is done.
use aegis_link.Common.{ℕ, ◌≤◌, ◌<◌, ◌≡◌, true, List, map, All}
use aegis_link.Text.{text_eq}
use aegis_link.Crypto.{Crypto}
use aegis_link.Bridge.Attestation.{is_seen}
use aegis_link.Relayer.Services.{answer}
use aegis_link.Relayer.Replay.{Store, checkpoint, is_processed}
use aegis_link.Relayer.Evm.{DepositEvent, event_replay_key}
use aegis_link.Relayer.Pipeline.State.{Services, Config, deposit_checkpoint_key}
use aegis_link.Relayer.Pipeline.Passes.{Passes}

module _ (crypto : Crypto) {W : Type 0} (services : Services W) (cfg : Config) where
  -- The deposits of a chain below a number are all remembered.
  abbrev pub IsDoneBelow : List DepositEvent → ℕ → Store → Type 0
  IsDoneBelow chain n s =
      All (λ e. e.block_number < n → is_processed s (event_replay_key crypto e) ≡ true) chain

  -- So they are below the cursor of the deposits.
  abbrev pub IsLossless : List DepositEvent → Store → Type 0
  IsLossless chain s = IsDoneBelow chain (checkpoint s deposit_checkpoint_key) s

  -- A list that has, by their keys, all deposits of the chain in a range of blocks.
  abbrev pub Covers : List DepositEvent → ℕ → ℕ → List DepositEvent → Type 0
  Covers chain from to found =
      All
        (λ e.
          from ≤ e.block_number
          → e.block_number ≤ to
          → is_seen (event_replay_key crypto e) (map (event_replay_key crypto) found) ≡ true)
        chain

  -- What the source of the deposits answers has all deposits of a chain in the range that it was
  -- asked for. It may fail as often as it likes.
  abbrev pub IsCompleteSource : List DepositEvent → Type 0
  IsCompleteSource chain =
      (w : W) (from to : ℕ) (w' : W) (found : List DepositEvent)
      → services.deposit_watcher.source.between w from to ≡ (w', answer found)
      → Covers chain from to found

-- ===== src/Relayer/Pipeline/Pass.antt =====
-- A pass over both: `RunOnceWithSummary` of relayer/internal/pipeline/pipeline.go.
use aegis_link.Common.{none, some}
use aegis_link.Crypto.{Crypto}
use aegis_link.Relayer.Services.{store_unavailable}
use aegis_link.Relayer.Pipeline.State.{Services, Config, Relay, Run, and_then, empty_summary}
use aegis_link.Relayer.Pipeline.Deposits.{run_deposits}
use aegis_link.Relayer.Pipeline.Withdrawals.{run_withdrawals}

module _ (crypto : Crypto) {W : Type 0} (services : Services W) (cfg : Config) where
  -- `RunOnceWithSummary`
  unfoldable pub run_once : Relay W → Run W
  unfolding run_deposits run_withdrawals
  run_once r = elim r.store.load_error [
    | some e ↦ (record r { summary = empty_summary }, some store_unavailable)
    | none ↦
        and_then (run_deposits crypto services cfg (record r { summary = empty_summary }))
          (run_withdrawals crypto services cfg)
  ]

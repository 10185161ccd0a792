-- ===== src/Relayer/Pipeline/Passes.antt =====
-- Any number of passes of relayer/internal/pipeline, while the world around the relayer changes.
use aegis_link.Crypto.{Crypto}
use aegis_link.Relayer.Pipeline.State.{Services, Config, Relay}
use aegis_link.Relayer.Pipeline.Pass.{run_once}

module _ (crypto : Crypto) {W : Type 0} (services : Services W) (cfg : Config) where
  -- The relays that passes lead to, each from any world.
  pub data Passes (start : Relay W) : Relay W → Type 0 where
    here : Passes start start
    pass :
        (r : Relay W) (w : W)
        → Passes start r
        → Passes start (run_once crypto services cfg (record r { world = w })).0

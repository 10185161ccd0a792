-- ===== src/App/Block/Queue.antt =====
-- What a block of chain/aegislink/app/app.go does to the queue of claims.
use aegis_link.Common.{ℕ, ◌+◌, ◌≤◌, ◌≡◌, Bool, Option, length}
use aegis_link.Text.{Text}
use aegis_link.Errors.{Error}
use aegis_link.Crypto.{Crypto}
use aegis_link.Limits
use aegis_link.Limits.Snapshot as LimitsSnapshot
use aegis_link.Bank
use aegis_link.Bridge.Attestation.{Attestation}
use aegis_link.Bridge.State as BridgeState
use aegis_link.Bridge.Snapshot as BridgeSnapshot
use aegis_link.Bridge.Keeper as BridgeKeeper
use aegis_link.App.{App}
use aegis_link.App.Block.{BlockProgress}

-- The rest of an application: what claims do not touch.
record IsBeside (a a' : App) : Type 0 where
  router : a'.ibc_router_keeper ≡ a.ibc_router_keeper
  authorities : a'.authorities ≡ a.authorities
  applied : a'.applied ≡ a.applied
  pending : a'.pending_deposit_claims ≡ a.pending_deposit_claims

module _ (flush_error : Option Error) (crypto : Crypto) (is_bech32 : Text → Bool) where
  -- What the loop over as many claims leaves.
  record IsDrained (n : ℕ) (a : App) (p : BlockProgress) (r : App × BlockProgress) : Type 0 where
    beside : IsBeside a r.0
    few : r.1.applied_queued_claims ≤ p.applied_queued_claims + n
    listed :
        length p.applied_claim_balances ≡ p.applied_queued_claims
        → length r.1.applied_claim_balances ≡ r.1.applied_queued_claims

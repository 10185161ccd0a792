-- ===== src/Examples/Wallets.antt =====
-- A wallet and a proposal.
use aegis_link.Common.{some, false, [], ◌∷◌}
use aegis_link.Common.Int.{pos}
use aegis_link.Text.{Text, lit}
use aegis_link.Bank
use aegis_link.Bank.{credit}
use aegis_link.Router.State
use aegis_link.Governance
use aegis_link.Governance.{AssetStatusProposal, apply_asset_status_proposal}
use aegis_link.Governance.History.{done, step, asset_status, IsOrderly, reachable-IsOrderly}
use aegis_link.Examples.Data.{registry, limits}

abbrev alice : Text
alice = lit "cosmos1alice"

abbrev funded : Bank.Keeper
funded = (credit Bank.new_keeper alice (lit "ueth") (some (pos 60))).0

abbrev governed : Governance.Keeper
governed = Governance.new_keeper registry limits State.new_keeper (lit "council" ∷ lit " " ∷ [])

abbrev disable_ether : AssetStatusProposal
disable_ether = record { proposal_id = lit "p1"; asset_id = lit "eth"; enabled = false }

abbrev decided : Governance.Keeper
decided = (apply_asset_status_proposal governed (lit "council") disable_ether).0

abbrev repeated : Governance.Keeper
repeated = (apply_asset_status_proposal decided (lit "council") disable_ether).0

reachable-IsOrderly_example : IsOrderly repeated
reachable-IsOrderly_example =
    reachable-IsOrderly registry limits State.new_keeper (lit "council" ∷ lit " " ∷ []) repeated (
      step governed decided repeated (asset_status governed (lit "council") disable_ether) (
        step decided repeated repeated (asset_status decided (lit "council") disable_ether)
          (done repeated)))

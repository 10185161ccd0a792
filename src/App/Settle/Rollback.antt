-- ===== src/App/Settle/Rollback.antt =====
-- A rollback of chain/aegislink/app/app.go brings back what its snapshots were taken of.
use aegis_link.Common.{◌≡◌, ap, ◌∙◌, Option, All}
use aegis_link.Text.{Text}
use aegis_link.Errors.{Error}
use aegis_link.Limits.Snapshot.Stored as LimitsStored
use aegis_link.Limits.Snapshot.Restore as LimitsRestore
use aegis_link.Bank.{Balances, balance_at}
use aegis_link.Bank.Snapshot.Restore as BankRestore
use aegis_link.Bridge.Snapshot.Roundtrip as BridgeRoundtrip
use aegis_link.Bridge.Accounting.Check.{IsKept}
use aegis_link.App.{App}
use aegis_link.App.Settle.{snapshots, rollback, bridge_imported, bank_imported, limits_imported}

-- The state of an application whose keepers are well formed and whose books are kept.
pub record IsSound (a : App) : Type 0 where
  pub kept : IsKept a.bridge_keeper
  pub bridge_stored : BridgeRoundtrip.IsStored a.bridge_keeper
  pub limits_stored : LimitsStored.IsStored a.bridge_keeper.limits_keeper
  pub wallets_stored : All BankRestore.IsWallet a.bank_keeper.balances

-- An application with the bridge and the limits of another, and with given wallets.
abbrev pub restored : App → App → Balances → App
restored a before m =
    let b = a.bridge_keeper in
    let k = before.bridge_keeper in
    let bank = a.bank_keeper in
    record a {
      bridge_keeper = record k {
        registry_keeper = b.registry_keeper;
        pauser_keeper = b.pauser_keeper;
      };
      bank_keeper = record bank { balances = m };
    }

-- A rollback ends with the bridge, the limits and the balances of the application of which the
-- snapshots are.
pub rollback-restored :
    (flush_error : Option Error) (a before : App)
    → IsSound before
    → (m : Balances) × (rollback flush_error a (snapshots before)
        ≡ (restored a before m, flush_error))
      × ((x y : Text) → balance_at m x y ≡ balance_at before.bank_keeper.balances x y)
unfolding snapshots rollback
rollback-restored flush_error a before sound =
    let (m, imported, same) =
      BankRestore.import-export before.bank_keeper a.bank_keeper sound.wallets_stored in
    let b = a.bridge_keeper in
    let k = before.bridge_keeper in
    let bank = a.bank_keeper in
    let with_bridge : App = record a {
      bridge_keeper = record k {
        registry_keeper = b.registry_keeper;
        limits_keeper = b.limits_keeper;
        pauser_keeper = b.pauser_keeper;
      };
    } in
    let with_bank : App = record with_bridge { bank_keeper = record bank { balances = m } } in
    let s = snapshots before in
    (
      m,
      ap (bridge_imported flush_error a s) (BridgeRoundtrip.import-export k b sound.bridge_stored)
          ∙ ap (bank_imported flush_error with_bridge s) imported
          ∙ ap (limits_imported flush_error with_bank) (
              LimitsRestore.import-export_stored k.limits_keeper b.limits_keeper
                sound.limits_stored),
      same,
    )

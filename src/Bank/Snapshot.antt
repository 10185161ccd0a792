-- ===== src/Bank/Snapshot.antt =====
-- Snapshots of the wallets: `ExportState` of x/bank/keeper/keeper.go. `ImportState` stands in Bank.
pub mod Load
pub mod Restore
use mathlib.Core.List.{map}
use aegis_link.Common.{List, [], ◌∷◌, ◌++◌, Bool, not, slice_stable}
use aegis_link.Common.Int.{ℤ}
use aegis_link.Common.Map.{Map, lookup}
use aegis_link.Text.{Text, text_eq}
use aegis_link.Codec.{int_decimal}
use aegis_link.Bridge.SignerSet.{text_leb}
use aegis_link.Bank.{Keeper, Balances, BalanceRecord, wallet, amount_or_zero}

abbrev pub keys {ℓ} : {V : Type ℓ} → Map Text V → List Text
keys [] = []
keys ((key, v) ∷ m) = key ∷ keys m

abbrev pub text_less : Text → Text → Bool
text_less a b = not (text_leb b a)

abbrev pub balance_record : Balances → Text → Text → BalanceRecord
balance_record m address denom = record {
  address = address;
  denom = denom;
  amount = int_decimal (amount_or_zero (lookup denom (wallet (lookup address m))));
}

-- The loop over the denominations of an address.
unfoldable pub export_wallet : Balances → Text → List Text → List BalanceRecord
export_wallet m address denoms = map (balance_record m address) denoms

-- The loop over the addresses.
unfoldable pub export_wallets : Balances → List Text → List BalanceRecord
unfolding export_wallet slice_stable
export_wallets m [] = []
export_wallets m (address ∷ addresses) =
    export_wallet m address (slice_stable text_less (keys (wallet (lookup address m))))
    ++ export_wallets m addresses

unfoldable pub export_state : Keeper → List BalanceRecord
unfolding export_wallets slice_stable
export_state k = export_wallets k.balances (slice_stable text_less (keys k.balances))

-- ===== src/App/Settle/Withdrawals.antt =====
-- How `ExecuteWithdrawal` of chain/aegislink/app/app.go ends.
use aegis_link.Text.{Text, text_eq}
use aegis_link.Crypto.{Crypto}
use aegis_link.Bank
use aegis_link.Bridge.State as BridgeState
use aegis_link.App.{App}

-- ===== src/App/Settle/Deposits.antt =====
-- How `SubmitDepositClaim` of chain/aegislink/app/app.go ends.
use aegis_link.Text.{Text, text_eq}
use aegis_link.Crypto.{Crypto}
use aegis_link.Bridge.Attestation.{Attestation}
use aegis_link.Bridge.State as BridgeState
use aegis_link.Bridge.State.{ClaimResult, increment}
use aegis_link.App.{App}

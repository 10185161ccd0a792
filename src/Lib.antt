-- ===== src/Lib.antt =====
-- AegisLink: the core of a bridge from Ethereum to a Cosmos chain, after its Go sources.
--
-- The chain keeps an asset registry, rate limits and pause switches, which the bridge keeper asks
-- before it mints (a deposit claim that a quorum of signers attests) or burns (a withdrawal). The IBC
-- router carries assets on to other chains and keeps account of each transfer.
--
-- A relayer carries deposits from Ethereum to the chain and withdrawals back, and remembers in a
-- replay store what it has done; a second relayer carries the router's transfers to their
-- destination.
--
-- Files, and what they model (paths below chain/aegislink/, but for those of the relayer):
--   Common, Text, Codec, Crypto: what the code uses of Go's language and library. Machine integers
--     are natural numbers with `% 2 ^ 64` written out where Go can wrap; big.Int is the type of
--     integers of Common.Int; maps are association lists (Common.Map), in the order in which keys
--     were first written. Texts are lists of bytes; trimming is Go's, letter case is ASCII only.
--     The hash functions and the recovery of a public key, third-party code, are the record Crypto.
--   Errors: the sentinel errors of all modules, without the texts wrapped around them.
--   Limits: x/limits (types/limits.go, keeper/keeper.go, keeper/usage.go). SetLimit is set_limit,
--     CheckTransferAtHeight check_transfer_at_height, RecordTransferAtHeight
--     record_transfer_at_height, and so on with the words of the source. Limits.Snapshot is the
--     export and the import of the state.
--   Pauser: x/pauser/keeper/keeper.go.
--   Registry: x/registry (types/asset.go, keeper/keeper.go).
--   Bridge: x/bridge. Bridge.Claim is types/claim.go and keys.go, Bridge.Attestation is
--     types/attestation.go, proof.go and keeper/verify_signature.go, Bridge.SignerSet and
--     Bridge.Verify are keeper/signer_set.go and verify_attestation.go, Bridge.State the state of
--     keeper/keeper.go, Bridge.Accounting is keeper/accounting.go and invariants.go, Bridge.Keeper
--     the operations of keeper/keeper.go, Bridge.Snapshot is keeper/state.go. The keepers that Go
--     shares by pointers stand in the one record Bridge.State.Keeper.
--   Router: x/ibcrouter (types/route_profile.go, keeper/keeper.go, ibc_ack.go, ibc_timeout.go).
--   Bank: x/bank/keeper/keeper.go.
--   Governance: x/governance/keeper (keeper.go, auth.go).
--   Relayer: relayer/internal. Relayer.Replay is replay/store.go, Relayer.Watcher evm/watcher.go and
--     cosmos/watcher.go, Relayer.Evm evm/client.go, Relayer.Cosmos cosmos/client.go,
--     Relayer.Attestations attestations/collector.go, Relayer.Pipeline a pass of
--     pipeline/pipeline.go, Relayer.Daemon the loops of pipeline/daemon.go and route/relay.go,
--     Relayer.Route the rest of route/relay.go. What a relayer calls (nodes, commands, files, the
--     context) are functions of a world of any type, which each call may change. The lists
--     `submitted` and `released` of Relayer.Pipeline.State.Relay are no state of the code: they
--     note the calls that have succeeded.
--   App: app/app.go and the types of app/node.go. App.Calls has the operations that call one keeper,
--     App.Settle SubmitDepositClaim, ExecuteWithdrawal and their rollbacks, App.Block the queue of
--     claims and AdvanceBlock. An operation holds the lock of the application from its beginning to
--     its end, and is one step. What the Cosmos SDK accepts as an address, and the error of writing
--     the wallets after a rollback, are parameters.
--   Examples: a small chain and its relayers, on which the theorems are applied.
--
-- An operation takes a keeper and gives the keeper that it leaves with its value or error, also
-- where it fails. Loops are recursion on lists. A loop of the relayer has fuel, one unit for each
-- pass; the limit of passes is enough. Two other functions have fuel: put_uvarint, ten bytes,
-- which is the room of a uint64, and digits_from, one more than the number, which has fewer digits.
--
-- Not modelled: the stores of the keepers (`persist` changes nothing in memory) and the snapshots
-- of all but the bridge, the limits and the bank, loading, saving and the status of the
-- application, the node, the commands, the relayer's sources and targets, the files of its votes,
-- its configuration and its automatic delivery, the contracts and the web pages.
pub mod Common
pub mod Text
pub mod Errors
pub mod Limits
pub mod Pauser
pub mod Registry
pub mod Bank
pub mod Codec
pub mod Crypto
pub mod Bridge
pub mod Router
pub mod Governance
pub mod Relayer
pub mod App
pub mod Examples

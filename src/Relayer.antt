-- ===== src/Relayer.antt =====
-- The relayer: relayer/internal. It carries deposits from Ethereum to the chain, withdrawals back,
-- and the router's transfers to their destination.
pub mod Services
pub mod Replay
pub mod Watcher
pub mod Evm
pub mod Cosmos
pub mod Attestations
pub mod Pipeline
pub mod Daemon
pub mod Route

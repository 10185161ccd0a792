-- ===== src/Bridge.antt =====
-- The bridge module of the chain, x/bridge.
pub mod Claim
pub mod Attestation
pub mod SignerSet
pub mod State
pub mod Verify
pub mod Accounting
pub mod Keeper
pub mod Snapshot

-- ===== src/Router.antt =====
-- The IBC router, x/ibcrouter.
pub mod Profile
pub mod State
pub mod Transfers
pub mod Sequence
pub mod Lifecycle
pub mod Operations
pub mod Refunds

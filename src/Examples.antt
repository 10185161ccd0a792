-- ===== src/Examples.antt =====
-- Concrete inputs, and the theorems of the other modules applied to them.
mod Data
mod Bridge
mod Limits
mod Assets
mod Keys
mod Router
mod Wallets
mod Snapshots
mod Relayer
mod Routes
mod Apps
mod Votes

-- ===== src/Relayer/Pipeline.antt =====
-- One pass of the relayer over deposits and withdrawals: relayer/internal/pipeline.
pub mod State
pub mod Deposits
pub mod Withdrawals
pub mod Pass
pub mod Once
pub mod Passes
pub mod Cursor
pub mod Handled
pub mod Released
pub mod Lossless

-- ===== src/Relayer/Route.antt =====
-- Transfers on their way to the destination: relayer/internal/route/relay.go.
pub mod Envelope
pub mod Action
pub mod Relay
pub mod Sequence

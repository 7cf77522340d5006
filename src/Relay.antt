-- ===== src/Relay.antt =====
-- internal/relay: the relay that carries datagrams between two peers when no direct path opens
-- (framing.go, budget.go, server.go).
pub mod Framing
pub mod Budget
pub mod Server
pub mod Reply
pub mod Handle
pub mod Machine
mod Tests

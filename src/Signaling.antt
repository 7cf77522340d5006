-- ===== src/Signaling.antt =====
-- internal/server: the signaling server's session table (server.go, types.go, state.go). Requests
-- are calls with what the handler reads of them; each handler holds the server's lock throughout,
-- so it is one step.
pub mod Session
pub mod Tables
pub mod RateLimit
pub mod Pairing
pub mod Endpoints
pub mod Janitor
pub mod Step
pub mod Access
pub mod RelaySlot
pub mod Once
pub mod Restart
mod Tests

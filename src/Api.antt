-- ===== src/Api.antt =====
-- The handlers of backend/src/api/server.js.
pub mod Settlement
pub mod Capture
pub mod Confirm
pub mod JobResult
pub mod Booking
pub mod JobSubmit
pub mod Nodes
pub mod Providers
pub mod Complete
pub mod Reads
pub mod Dashboard
pub mod Ops

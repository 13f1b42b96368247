-- ===== src/Ws.antt =====
-- The socket layer of the backend: backend/src/ws/.
pub mod Protocol
pub mod Hub
pub mod ClusterRelay

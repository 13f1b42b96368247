-- ===== src/Reservations.antt =====
-- The reservation lifecycle: backend/src/reservations/.
pub mod Machine
pub mod Reconciler

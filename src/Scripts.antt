-- ===== src/Scripts.antt =====
-- backend/scripts: `Simulation` is the backtest of the ranking (scheduler_simulation.js).
pub mod Simulation

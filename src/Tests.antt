-- ===== src/Tests.antt =====
-- Concrete states and requests, at which the theorems are applied.
mod World
mod Money
mod Confirming
mod Running
mod Searching
mod Sockets
mod Logins
mod Signing
mod Cluster
mod Ranking
mod Migrating
mod Reading
mod Clicking
mod Logging

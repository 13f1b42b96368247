-- ===== src/Frontend.antt =====
-- The logic of the client: frontend/src/lib/ and frontend/src/App.jsx.
pub mod Checkout
pub mod App

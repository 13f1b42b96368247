-- ===== src/Payments.antt =====
-- Settlement math and compensating refunds: backend/src/payments/.
pub mod Settle
pub mod Refunds
pub mod Razorpay

-- ===== src/Lifecycle.antt =====
-- lifecycle.py: the receipt-gated lifecycle around a plan.
pub mod Tests
pub mod Preview
pub mod Reconcile
pub mod Owners

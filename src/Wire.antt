-- ===== src/Wire.antt =====
-- The wire layer, a2a_compliance/wire: canonical digests, signatures, trust, verification,
-- admission, permits, execution, and the assurance behind it.
pub mod Canonical
pub mod Trust
pub mod Signing
pub mod Checks
pub mod Verification
pub mod Admission
pub mod Executor
pub mod Obligations
pub mod Chain
pub mod Reconciliation
pub mod Certification
pub mod Fixtures
pub mod Tests
pub mod StoreTests

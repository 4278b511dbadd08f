-- ===== src/Approvals.antt =====
-- Approval requests and their results: apps/api/src/services/approval-results.ts, and the store of
-- approval-request-store.ts.
pub mod Types
pub mod Store
pub mod Service
pub mod System
pub mod Demo

-- ===== src/Handoff.antt =====
-- Prepared handoffs, of apps/api/src/services/prepared-handoff.ts.
pub mod Types
pub mod Store
pub mod Service
pub mod System
pub mod Demo

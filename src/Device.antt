-- ===== src/Device.antt =====
-- apps/api/src/services/device-authorization.ts and device-authorization-store.ts.
pub mod Types
pub mod Platform
pub mod Store
pub mod Jwk
pub mod Scope
pub mod UserCode
pub mod Start
pub mod Relay
pub mod Service
pub mod Demo
pub mod Flow
pub mod System

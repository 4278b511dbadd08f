-- ===== src/Native.antt =====
-- Native delegation, of apps/api/src/services/native-delegation: the session proof.
pub mod SessionProof
pub mod Demo

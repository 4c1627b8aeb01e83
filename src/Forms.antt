-- ===== src/Forms.antt =====
-- Parts of the edit windows of www/manager6 that turn a configuration into fields and back.
pub mod BootOrder
pub mod CpuFlags
pub mod Search

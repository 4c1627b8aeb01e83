-- ===== src/Utils.antt =====
-- www/manager6/Utils.js: the helpers of the manager that compute.
pub mod Decimal
pub mod Slots
pub mod Notes
pub mod Versions
pub mod Controllers
pub mod Fields
pub mod Rendering

-- ===== src/Ota.antt =====
-- The components of ceell/ota/.
pub mod Version
pub mod Client

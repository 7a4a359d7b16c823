-- ===== src/Config.antt =====
-- Configuration objects, fastapi_admin_kit/config/.
pub mod Cache

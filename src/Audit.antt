-- ===== src/Audit.antt =====
-- The audit log, fastapi_admin_kit/audit/.
pub mod Context
pub mod Shared
pub mod Listener
pub mod Stale
mod Tests

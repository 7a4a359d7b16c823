-- ===== src/Notifications.antt =====
-- Notifications, fastapi_admin_kit/notifications/.
pub mod Store
pub mod Unread
pub mod Hub
pub mod Template
pub mod Service
pub mod Change
mod Tests

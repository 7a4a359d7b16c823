-- ===== src/Auth.antt =====
-- Authentication and authorisation, fastapi_admin_kit/auth/.
pub mod Ratelimit
pub mod Permissions
pub mod Session
pub mod Proxy
pub mod Totp
pub mod Enrolment
pub mod Csrf
mod Tests

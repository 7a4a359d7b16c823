-- ===== src/Exchange.antt =====
-- Export and import of rows, fastapi_admin_kit/export_import/.
pub mod Formats
pub mod Export
pub mod Import
mod Tests

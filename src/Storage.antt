-- ===== src/Storage.antt =====
-- Uploaded files, fastapi_admin_kit/storage/ and views/file_handler.py.
pub mod Paths
pub mod Local
pub mod Plain
pub mod Jail
pub mod Stored
pub mod Upload
pub mod Handled
mod Tests

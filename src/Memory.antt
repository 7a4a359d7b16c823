-- ===== src/Memory.antt =====
-- The dependency-free reference backend, fastapi_admin_kit/backends/memory.py.
pub mod Query
pub mod Column
pub mod Adapter
pub mod Match
pub mod Rows
pub mod Action
pub mod Session
pub mod Selection
pub mod Search
pub mod Keys
pub mod Crud
pub mod Ids
pub mod Introspection
pub mod Database
pub mod Seeding
pub mod Diff
pub mod Totality
mod Tests

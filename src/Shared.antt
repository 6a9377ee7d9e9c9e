-- ===== src/Shared.antt =====
-- src/shared: the domain types, the errors, and the checks that every part uses.
pub mod Text
pub mod Types
pub mod Errors
pub mod Exec
pub mod Validation
pub mod Date
pub mod Identifiers
pub mod Cursor
